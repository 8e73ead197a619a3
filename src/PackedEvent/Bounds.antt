-- ===== src/PackedEvent/Bounds.antt =====
-- The tag loop of src/PackedEvent.h on arbitrary bytes: it ends, with a state or out of range.
use strfry.Prelude.{
  ℕ, zero, suc, ◌≤◌, ◌≡◌, refl, ◌⊎◌, inl, inr, Bool, true, false, [], ◌∷◌, arith, ltb,
  if◌then◌else◌, length, take, drop, length-drop-le, out_of_range, Result, ok, err,
}
use strfry.Prelude.Bytes.{Bytes}
use strfry.PackedEvent.{PackedEventView, tag_loop, foreach_tag}

module _ {S : Type 0} (cb : ℕ → Bytes → S → S × Bool) where
  -- A run of the loop is over, with a state or with a read past the end.
  abbrev pub Ends : Result S → Type 0
  Ends r = ((s : S) × (r ≡ ok s)) ⊎ (r ≡ err out_of_range)

  if-Ends : (b : Bool) (x y : Result S) → Ends x → Ends y → Ends (if b then x else y)
  if-Ends true x y hx hy = hx
  if-Ends false x y hx hy = hy

  tag_loop-Ends : (f : ℕ) (b : Bytes) (s : S) → length b ≤ f → Ends (tag_loop cb f b s)
  unfolding tag_loop
  tag_loop-Ends zero [] s h = inl (s, refl)
  tag_loop-Ends (suc f) [] s h = inl (s, refl)
  tag_loop-Ends zero (c ∷ b) s h = absurd (omega arith)
  tag_loop-Ends (suc f) (c ∷ []) s h = inr refl
  tag_loop-Ends (suc f) (c ∷ n ∷ b) s h =
      if-Ends (cb c (take n b) s).1 _ _
        (if-Ends (ltb (length b) n) _ _ (inr refl)
          (tag_loop-Ends f (drop n b) (cb c (take n b) s).0 (omega (arith, length-drop-le n b))))
        (inl ((cb c (take n b) s).0, refl))

  -- Over any buffer, well formed or not, and for any callback, the loop over the tags ends with
  -- the callback's last state or with an out-of-range error: it never runs out of rounds.
  pub foreach_tag-Ends : (ev : PackedEventView) (s : S) → Ends (foreach_tag cb ev s)
  unfolding foreach_tag
  foreach_tag-Ends ev s = tag_loop-Ends _ (drop 88 ev.buf) s (omega arith)
