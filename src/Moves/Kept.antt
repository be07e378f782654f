-- ===== src/Moves/Kept.antt =====
-- The parameters at an address, and where they go.
use postgres_cpp_lib.Base.{
  ℕ, suc, ◌≡◌, refl, arith, true, false, not, ◌||◌, Bool-cases, inl, inr, Option, none, some, ◌==◌,
  if◌then◌else◌,
}
use postgres_cpp_lib.Wire.{Bytes}
use postgres_cpp_lib.Param.{PgParamDetail}
use postgres_cpp_lib.Moves.{
  Detail, Memory, Action, makes, makes_empty, moves, assigns, makes_request, moves_request,
  assigns_request, sets, destroys, destroys_request, update, free, placed, empty_detail, moved_from,
  construct, assign_at, make_at, make_empty_at, destroy_at, assign_other, on_details,
}
use postgres_cpp_lib.Moves.Places.{Apart, Then, Holds, follow, spares}

module _ (left_over : Bytes → Bytes) where
  moved-Apart :
      (f : ℕ → Option Detail) (n dst src : ℕ) (d : Detail)
      → f src ≡ some d
      → Apart f n
      → Apart (update dst (some d) (update src (some (moved_from left_over d)) f)) n
  unfolding update
  moved-Apart f n dst src d e w = record {
    apart = λ a b k g h. ground (arith, w.apart a b k, w.apart a src k, w.apart src b k, e, g, h);
    below = λ a k g. ground (arith, w.below a k, w.below src k, e, g);
  }

  moved :
      (a k : ℕ) (p : PgParamDetail) (f : ℕ → Option Detail) (dst src : ℕ) (d : Detail)
      → f src ≡ some d
      → ((dst == a) ≡ false)
      → f a ≡ some (placed k p)
      → update dst
          (some d)
          (update src (some (moved_from left_over d)) f)
          (if a == src then dst else a)
        ≡ some (placed k p)
  unfolding update
  moved a k p f dst src d e other h = ground (arith, e, other, h)

  pub made-Apart :
      (f : ℕ → Option Detail) (n a : ℕ) (p : PgParamDetail)
      → Apart f n
      → Apart (update a (some (placed n p)) f) (suc n)
  unfolding update
  made-Apart f n b p w = record {
    apart = λ a c k g h. ground (arith, w.apart a c k, w.below a k, w.below c k, g, h);
    below = λ a k g. ground (arith, w.below a k, g);
  }

  emptied-Apart :
      (f : ℕ → Option Detail) (n a : ℕ) (d : Detail)
      → d.text ≡ none
      → Apart f n
      → Apart (update a (some d) f) n
  unfolding update
  emptied-Apart f n b d e w = record {
    apart = λ a c k g h. ground (arith, w.apart a c k, e, g, h);
    below = λ a k g. ground (arith, w.below a k, e, g);
  }

  destroyed-Apart : (f : ℕ → Option Detail) (n a : ℕ) → Apart f n → Apart (update a none f) n
  unfolding update
  destroyed-Apart f n b w = record {
    apart = λ a c k g h. ground (arith, w.apart a c k, g, h);
    below = λ a k g. ground (arith, w.below a k, g);
  }

  -- What is kept of the parameters at `a`, and of the blocks.
  abbrev pub Keeps : ℕ → ℕ → PgParamDetail → Memory → Type 0
  Keeps a k p m = Apart m.details m.next_block × Holds a k p m

  construct-Keeps :
      (dst src a k : ℕ) (p : PgParamDetail) (m : Memory) (o q : Option Detail)
      → m.details src ≡ o
      → m.details dst ≡ q
      → Keeps a k p m
      → Then (Keeps (if a == src then dst else a) k p) (construct left_over dst src o q m)
  unfolding construct
  construct-Keeps dst src a k p m none q e f h = tt
  construct-Keeps dst src a k p m (some d) (some old) e f h = tt
  construct-Keeps dst src a k p m (some d) none e f (w, h) = (
    moved-Apart m.details m.next_block dst src d e w,
    record {
      detail = moved a k p m.details dst src d e (ground (arith, f, h.detail)) h.detail;
      strings = h.strings;
    },
  )

  -- The strings of another object are freed.
  freed :
      (a b k : ℕ) (p : PgParamDetail) (m : Memory) (old : Detail)
      → m.details b ≡ some old
      → (b == a) ≡ false
      → Keeps a k p m
      → free old.text m.blocks k ≡ some p.text
  unfolding free update
  freed a b k p m old f other (w, h) = go old.text refl
    where
      go : (t : Option ℕ) → old.text ≡ t → free t m.blocks k ≡ some p.text
      go none e = h.strings
      go (some j) e = ground (arith, e, f, other, h.detail, h.strings, w.apart b a j)

  assign_at-Keeps :
      (dst src a k : ℕ) (p : PgParamDetail) (m : Memory) (o q : Option Detail)
      → m.details src ≡ o
      → m.details dst ≡ q
      → (dst == a) ≡ false
      → Keeps a k p m
      → Then (Keeps (if a == src then dst else a) k p) (assign_at left_over dst src o q m)
  unfolding assign_at
  assign_at-Keeps dst src a k p m none q e f other h = tt
  assign_at-Keeps dst src a k p m (some d) none e f other h = tt
  assign_at-Keeps dst src a k p m (some d) (some old) e f other (w, h) = (
    moved-Apart m.details m.next_block dst src d e w,
    record {
      detail = moved a k p m.details dst src d e other h.detail;
      strings = freed a dst k p m old f other (w, h);
    },
  )

  assign_other-Keeps :
      (dst src a k : ℕ) (p : PgParamDetail) (m : Memory)
      → ((dst == src) || not (dst == a)) ≡ true
      → Keeps a k p m
      → Then (Keeps (if a == src then dst else a) k p) (assign_other left_over dst src m)
  unfolding assign_other
  assign_other-Keeps dst src a k p m free h = elim (Bool-cases (dst == src)) [
    | inl same ↦ rw (same, stays same) h
    | inr other ↦ rw other (
        assign_at-Keeps dst src a k p m (m.details src) (m.details dst) refl refl
          (ground (arith, free, other)) h)
  ]
    where
      stays : (dst == src) ≡ true → (if a == src then dst else a) ≡ a
      stays same = ground (arith, same)

  make_at-Keeps :
      (b a k : ℕ) (q p : PgParamDetail) (m : Memory) (o : Option Detail)
      → m.details b ≡ o
      → Keeps a k p m
      → Then (Keeps a k p) (make_at left_over b q o m)
  unfolding make_at update
  make_at-Keeps b a k q p m (some d) f h = tt
  make_at-Keeps b a k q p m none f (w, h) = (
    made-Apart m.details m.next_block b q w,
    record {
      detail = ground (arith, f, h.detail);
      strings = ground (arith, h.strings, h.detail, w.below a k);
    },
  )

  make_empty_at-Keeps :
      (b a k : ℕ) (p : PgParamDetail) (m : Memory) (o : Option Detail)
      → m.details b ≡ o
      → Keeps a k p m
      → Then (Keeps a k p) (make_empty_at left_over b o m)
  unfolding make_empty_at update
  make_empty_at-Keeps b a k p m (some d) f h = tt
  make_empty_at-Keeps b a k p m none f (w, h) = (
    emptied-Apart m.details m.next_block b empty_detail refl w,
    record { detail = ground (arith, f, h.detail); strings = h.strings },
  )

  destroy_at-Keeps :
      (b a k : ℕ) (p : PgParamDetail) (m : Memory) (o : Option Detail)
      → m.details b ≡ o
      → not (b == a) ≡ true
      → Keeps a k p m
      → Then (Keeps a k p) (destroy_at left_over b o m)
  unfolding destroy_at update
  destroy_at-Keeps b a k p m none f other h = tt
  destroy_at-Keeps b a k p m (some d) f other (w, h) = (
    destroyed-Apart m.details m.next_block b w,
    record {
      detail = ground (arith, f, other, h.detail);
      strings = freed a b k p m d f (ground (arith, other)) (w, h);
    },
  )

  pub on_details-Keeps :
      (act : Action) (a k : ℕ) (p : PgParamDetail) (m : Memory)
      → spares act a ≡ true
      → Keeps a k p m
      → Then (Keeps (follow act a) k p) (on_details left_over act m)
  unfolding on_details
  on_details-Keeps (makes b q) a k p m free h = make_at-Keeps b a k q p m (m.details b) refl h
  on_details-Keeps (makes_empty b) a k p m free h =
      make_empty_at-Keeps b a k p m (m.details b) refl h
  on_details-Keeps (moves dst src) a k p m free h =
      construct-Keeps dst src a k p m (m.details src) (m.details dst) refl refl h
  on_details-Keeps (assigns dst src) a k p m free h = assign_other-Keeps dst src a k p m free h
  on_details-Keeps (makes_request dst src) a k p m free h =
      construct-Keeps dst src a k p m (m.details src) (m.details dst) refl refl h
  on_details-Keeps (moves_request dst src) a k p m free h =
      construct-Keeps dst src a k p m (m.details src) (m.details dst) refl refl h
  on_details-Keeps (assigns_request dst src) a k p m free h =
      assign_other-Keeps dst src a k p m free h
  on_details-Keeps (sets b r) a k p m free h = h
  on_details-Keeps (destroys b) a k p m free h =
      destroy_at-Keeps b a k p m (m.details b) refl free h
  on_details-Keeps (destroys_request b) a k p m free h =
      destroy_at-Keeps b a k p m (m.details b) refl free h
