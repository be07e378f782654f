-- ===== src/Moves/Passed.antt =====
-- The callbacks of a request, and where they go.
use mathlib.Core.Option
use postgres_cpp_lib.Base.{
  ℕ, ◌≡◌, refl, subst, arith, Bool, true, false, not, ◌&&◌, ◌||◌, Bool-cases, inl, inr, Option,
  none, some, List, [], ◌∷◌, ◌==◌, if◌then◌else◌,
}
use postgres_cpp_lib.Wire.{Bytes}
use postgres_cpp_lib.Moves.{
  Callbacks, Memory, Action, makes, makes_empty, moves, assigns, makes_request, moves_request,
  assigns_request, sets, destroys, destroys_request, update, free, pass_callbacks, on_details,
  on_callbacks, perform, perform_all,
}
use postgres_cpp_lib.Moves.Places.{Then, follow, spares, follow_all, with_callbacks}

-- The request at the address stays whole: its parameters are not moved out of it, it is not made
-- anew, and its callbacks are not set.
abbrev pub whole : Action → ℕ → Bool
whole (moves dst src) a = not (src == a)
whole (assigns dst src) a = not (src == a)
whole (makes_request dst src) a = not (src == a) && not (dst == a)
whole (moves_request dst src) a = not (dst == a)
whole (sets b r) a = not (b == a)
whole (assigns_request dst src) a = true
whole (makes b p) a = true
whole (makes_empty b) a = not (b == a)
whole (destroys b) a = true
whole (destroys_request b) a = true

abbrev pub names : ℕ → Option ℕ → Bool
names i none = false
names i (some j) = i == j

-- The callback `i` is in a request.
abbrev pub has : ℕ → Option Callbacks → Bool
has i none = false
has i (some r) = names i r.on_success || names i r.on_error

-- The callback is not set once more.
abbrev pub other_callbacks : ℕ → Action → Bool
other_callbacks i (sets b r) = not (has i (some r))
other_callbacks i (makes b p) = true
other_callbacks i (makes_empty b) = true
other_callbacks i (moves dst src) = true
other_callbacks i (assigns dst src) = true
other_callbacks i (makes_request dst src) = true
other_callbacks i (moves_request dst src) = true
other_callbacks i (assigns_request dst src) = true
other_callbacks i (destroys b) = true
other_callbacks i (destroys_request b) = true

-- The callbacks at `a` are `r`, and `i` is nowhere else.
pub record Sole (a i : ℕ) (r : Callbacks) (f : ℕ → Option Callbacks) : Type 0 where
  pub here : f a ≡ some r
  pub only : (x : ℕ) → has i (f x) ≡ true → x ≡ a

pass_callbacks-Sole :
    (dst src a i : ℕ) (r : Callbacks) (o : Option Callbacks) (f : ℕ → Option Callbacks)
    → f src ≡ o
    → (dst == a) ≡ false
    → Sole a i r f
    → Sole (if a == src then dst else a) i r (pass_callbacks dst src o f)
unfolding pass_callbacks update
pass_callbacks-Sole dst src a i r none f e other h = record {
  here = ground (arith, e, other, h.here);
  only = λ x g. ground (arith, e, other, h.here, g, h.only x);
}
pass_callbacks-Sole dst src a i r (some q) f e other h = record {
  here = ground (arith, e, other, h.here);
  only = λ x g. ground (arith, e, other, g, h.only x, h.only src);
}

assigned-Sole :
    (dst src a i : ℕ) (r : Callbacks) (f : ℕ → Option Callbacks)
    → ((dst == src) || not (dst == a)) ≡ true
    → Sole a i r f
    → Sole
        (if a == src then dst else a)
        i
        r
        (if dst == src then f else pass_callbacks dst src (f src) f)
assigned-Sole dst src a i r f free h = elim (Bool-cases (dst == src)) [
  | inl same ↦ rw (same, stays same) h
  | inr other ↦
      rw other (pass_callbacks-Sole dst src a i r (f src) f refl (ground (arith, free, other)) h)
]
  where
    stays : (dst == src) ≡ true → (if a == src then dst else a) ≡ a
    stays same = ground (arith, same)

-- Each action takes the callbacks of a request to where its parameters go.
pub on_callbacks-Sole :
    (left_over : Bytes → Bytes) (act : Action) (a i : ℕ) (r : Callbacks) (f : ℕ → Option Callbacks)
    → spares act a ≡ true
    → whole act a ≡ true
    → other_callbacks i act ≡ true
    → Sole a i r f
    → Sole (follow act a) i r (on_callbacks left_over act f)
unfolding on_callbacks update
on_callbacks-Sole left_over (makes b p) a i r f free w o h = h
on_callbacks-Sole left_over (moves dst src) a i r f free w o h = rw (stays w) h
  where
    stays : not (src == a) ≡ true → (if a == src then dst else a) ≡ a
    stays w = ground (arith, w)
on_callbacks-Sole left_over (assigns dst src) a i r f free w o h = rw (stays w) h
  where
    stays : not (src == a) ≡ true → (if a == src then dst else a) ≡ a
    stays w = ground (arith, w)
on_callbacks-Sole left_over (makes_empty b) a i r f free w o h = record {
  here = ground (arith, w, h.here);
  only = λ x g. ground (arith, w, g, h.only x);
}
on_callbacks-Sole left_over (makes_request dst src) a i r f free w o h = record {
  here = ground (arith, w, h.here);
  only = λ x g. ground (arith, w, g, h.only x);
}
on_callbacks-Sole left_over (moves_request dst src) a i r f free w o h =
    pass_callbacks-Sole dst src a i r (f src) f refl (ground (arith, w)) h
on_callbacks-Sole left_over (assigns_request dst src) a i r f free w o h =
    assigned-Sole dst src a i r f free h
on_callbacks-Sole left_over (sets b q) a i r f free w o h = record {
  here = ground (arith, w, h.here);
  only = λ x g. ground (arith, o, g, h.only x);
}
on_callbacks-Sole left_over (destroys b) a i r f free w o h = h
on_callbacks-Sole left_over (destroys_request b) a i r f free w o h = record {
  here = ground (arith, free, h.here);
  only = λ x g. ground (arith, g, h.only x);
}

-- No action destroys the request, takes it apart or assigns another to it, nor sets the callback `i`
-- once more.
unfoldable pub all_whole : ℕ → List Action → ℕ → Bool
all_whole i [] a = true
all_whole i (act ∷ acts) a =
    spares act a && whole act a && other_callbacks i act && all_whole i acts (follow act a)

module _ (left_over : Bytes → Bytes) where
  perform-Sole :
      (act : Action) (a i : ℕ) (r : Callbacks) (m : Memory) (o : Option Memory)
      → spares act a ≡ true
      → whole act a ≡ true
      → other_callbacks i act ≡ true
      → Sole a i r m.callbacks
      → Then
          (λ (n : Memory). Sole (follow act a) i r n.callbacks)
          (with_callbacks (on_callbacks left_over act m.callbacks) o)
  perform-Sole act a i r m none free w other h = tt
  perform-Sole act a i r m (some n) free w other h =
      on_callbacks-Sole left_over act a i r m.callbacks free w other h

  perform_all-Sole :
      (acts : List Action) (a i : ℕ) (r : Callbacks) (o : Option Memory)
      → all_whole i acts a ≡ true
      → Then (λ (n : Memory). Sole a i r n.callbacks) o
      → Then
          (λ (n : Memory). Sole (follow_all acts a) i r n.callbacks)
          (Option.bind o (perform_all left_over acts))
  unfolding perform_all follow_all all_whole Option.bind perform
  perform_all-Sole acts a i r none free h = tt
  perform_all-Sole [] a i r (some m) free h = h
  perform_all-Sole (act ∷ acts) a i r (some m) free h =
      let (spared, w, other, others) =
        all_four (spares act a) (whole act a) (other_callbacks i act)
          (all_whole i acts (follow act a)) free in
      perform_all-Sole acts (follow act a) i r (perform left_over act m) others
        (perform-Sole act a i r m (on_details left_over act m) spared w other h)
    where
      all_four :
          (b c d e : Bool)
          → (b && c && d && e) ≡ true
          → (b ≡ true) × (c ≡ true) × (d ≡ true) × (e ≡ true)
      all_four b c d e h = ground (arith, h)

  -- A request has a callback that no other request has. Whatever moves, assignments, new objects and
  -- destructors follow, as long as the program is not at fault and none of them destroys the request,
  -- takes it apart, assigns another to it or sets that callback once more: where the request is in
  -- the end it has its callbacks and the way in which they are called, and no other request has the
  -- callback.
  pub callbacks-moved :
      (acts : List Action) (a i : ℕ) (r : Callbacks) (m n : Memory)
      → Sole a i r m.callbacks
      → perform_all left_over acts m ≡ some n
      → all_whole i acts a ≡ true
      → Sole (follow_all acts a) i r n.callbacks
  unfolding Option.bind
  callbacks-moved acts a i r m n h e free =
      subst (Then (λ (n : Memory). Sole (follow_all acts a) i r n.callbacks)) e
        (perform_all-Sole acts a i r (some m) free h)
