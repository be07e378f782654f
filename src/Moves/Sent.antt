-- ===== src/Moves/Sent.antt =====
-- What libpq reads of a `pg_param_detail` that was moved.
use mathlib.Core.Option
use postgres_cpp_lib.Base.{
  ℕ, ◌^◌, ◌<◌, ◌≡◌, refl, ap, subst, ◌∙◌, arith, Bool, true, ◌&&◌, Option, none, some, List, [],
  ◌∷◌, map, length, All, length-map,
}
use postgres_cpp_lib.Wire.{Bytes}
use postgres_cpp_lib.Param.{SupportedType, PgParamDetail, make_pg_param_buffer, to_binary}
use postgres_cpp_lib.Param.Buffer.{make_pg_param_buffer_lem}
use postgres_cpp_lib.Param.Sent.{meant, IsShort, received-make_pg_param_buffer}
use postgres_cpp_lib.Moves.{
  Detail, Callbacks, Memory, Action, makes, update, free, make_at, on_details, on_callbacks,
  perform, perform_all,
}
use postgres_cpp_lib.Moves.Places.{
  Apart, Then, follow, spares, follow_all, all_spare, with_callbacks,
}
use postgres_cpp_lib.Moves.Kept.{Keeps, on_details-Keeps, made-Apart}
use postgres_cpp_lib.Moves.Reading.{received_at, Holds-received, pointers-InText}

module _ (left_over : Bytes → Bytes) where
  callbacks-Keeps :
      (a k : ℕ) (p : PgParamDetail) (f : ℕ → Option Callbacks) (o : Option Memory)
      → Then (Keeps left_over a k p) o
      → Then (Keeps left_over a k p) (with_callbacks f o)
  callbacks-Keeps a k p f none h = tt
  callbacks-Keeps a k p f (some m) (w, h) = (w, record { detail = h.detail; strings = h.strings })

  perform_all-Keeps :
      (acts : List Action) (a k : ℕ) (p : PgParamDetail) (o : Option Memory)
      → all_spare acts a ≡ true
      → Then (Keeps left_over a k p) o
      → Then (Keeps left_over (follow_all acts a) k p) (Option.bind o (perform_all left_over acts))
  unfolding perform_all follow_all all_spare Option.bind perform
  perform_all-Keeps acts a k p none free h = tt
  perform_all-Keeps [] a k p (some m) free h = h
  perform_all-Keeps (act ∷ acts) a k p (some m) free h =
      let (first, others) = both (spares act a) (all_spare acts (follow act a)) free in
      perform_all-Keeps acts (follow act a) k p (perform left_over act m) others (
        callbacks-Keeps (follow act a) k p (on_callbacks left_over act m.callbacks)
          (on_details left_over act m) (on_details-Keeps left_over act a k p m first h))
    where
      both : (b c : Bool) → (b && c) ≡ true → (b ≡ true) × (c ≡ true)
      both b c e = ground (arith, e)

  made-Keeps :
      (a : ℕ) (p : PgParamDetail) (m : Memory) (o : Option Detail)
      → m.details a ≡ o
      → Apart m.details m.next_block
      → Then (Keeps left_over a m.next_block p) (make_at left_over a p o m)
  unfolding make_at update
  made-Keeps a p m (some d) e w = tt
  made-Keeps a p m none e w = (
    made-Apart left_over m.details m.next_block a p w,
    record { detail = ground arith; strings = ground arith },
  )

  -- In a memory where no two objects have the same strings: a `pg_param_detail` is made of a query and
  -- fewer than 2^31 parameters, each of less than 2^31 bytes. Whatever moves, assignments, new objects and
  -- destructors follow, as long as the program is not at fault and none of them destroys these
  -- parameters or assigns others to them: where they are in the end, no pointer dangles, the query is
  -- the same, and libpq reads each parameter as the caller meant it, NULL or its bytes in binary
  -- format.
  pub received-moved :
      (per_us : ℕ) (query : Bytes) (params : List SupportedType) (acts : List Action) (a : ℕ)
      (m n : Memory)
      → All (IsShort per_us) params
      → length params < 2 ^ 31
      → Apart m.details m.next_block
      → perform_all left_over (makes a (make_pg_param_buffer per_us query params) ∷ acts) m ≡ some n
      → all_spare acts a ≡ true
      → received_at (n.details (follow_all acts a)) n ≡ some (query, map (meant per_us) params)
  unfolding perform_all perform on_details Option.bind
  received-moved per_us query params acts a m n short few w e free =
      let p = make_pg_param_buffer per_us query params in
      let first =
        callbacks-Keeps a m.next_block p (on_callbacks left_over (makes a p) m.callbacks)
          (make_at left_over a p (m.details a) m) (made-Keeps a p m (m.details a) refl w) in
      let (_, holds) =
        subst (Then (Keeps left_over (follow_all acts a) m.next_block p)) e
          (perform_all-Keeps acts a m.next_block p _ free first) in
      Holds-received (follow_all acts a) m.next_block p n
        (rw (make_pg_param_buffer_lem per_us query params) (
          pointers-InText (map (to_binary per_us) params) 0 params
            (omega (arith, length-map params (to_binary per_us)))))
        holds
      ∙ rw
          (
            (received-make_pg_param_buffer per_us query params short few).0,
            ap (λ d. d.query) (make_pg_param_buffer_lem per_us query params),
          )
          refl
