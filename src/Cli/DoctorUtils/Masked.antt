-- ===== src/Cli/DoctorUtils/Masked.antt =====
-- What `mask_secret` shows of a secret.
use rubica_bot.Prelude.{
  ℕ, suc, ◌+◌, ◌-◌, ◌*◌, ◌≤◌, ◌<◌, ◌≡◌, refl, sym, ap, ◌∙◌, String, true, false, leb, ◌==◌, arith,
}
use rubica_bot.Prelude.Text.{◌<+>◌, is_empty, count}
use rubica_bot.Cli.DoctorUtils.{prefix, after, suffix, stars, mask_secret}

count-append : (a b : String) → count (a <+> b) ≡ count a + count b
unfolding count
count-append String.[] b = omega arith
count-append (String.◌∷◌ c a) b = omega (arith, count-append a b)

prefix-append : (a b : String) → prefix (count a) (a <+> b) ≡ a
unfolding prefix count
prefix-append String.[] b = refl
prefix-append (String.◌∷◌ c a) b = ap (String.◌∷◌ c) (prefix-append a b)

after-append : (a b : String) → after (count a) (a <+> b) ≡ b
unfolding after count
after-append String.[] b = refl
after-append (String.◌∷◌ c a) b = after-append a b

append_assoc : (a b c : String) → (a <+> b) <+> c ≡ a <+> b <+> c
append_assoc String.[] b c = refl
append_assoc (String.◌∷◌ x a) b c = ap (String.◌∷◌ x) (append_assoc a b c)

counted-given : (s : String) → 0 < count s → is_empty s ≡ false
unfolding count
counted-given String.[] h = absurd (omega arith)
counted-given (String.◌∷◌ c s) h = refl

suffix-append : (n : ℕ) (a b : String) → count b ≡ n → 0 < n → suffix n (a <+> b) ≡ b
unfolding suffix
suffix-append n a b h pos =
    let some_left : (n == 0) ≡ false = ground (arith, pos) in
    let start : count (a <+> b) - n ≡ count a = omega (arith, count-append a b) in
    rw some_left (rw start (after-append a b))

module _ (visible : ℕ) (a x b : String) (pos : 0 < visible) (a_is : count a ≡ visible)
    (b_is : count b ≡ visible) (more : 0 < count x) where
  mask_secret-long : mask_secret visible (a <+> x <+> b) ≡ a <+> "..." <+> b
  unfolding mask_secret
  mask_secret-long =
      let whole = a <+> x <+> b in
      let long : visible * 2 < count whole =
        omega (arith, count-append a (x <+> b), count-append x b) in
      let given = counted-given whole (omega arith) in
      let not_short : leb (count whole) (visible * 2) ≡ false = ground (arith, long) in
      let first = ap (λ n. prefix n whole) (sym a_is) ∙ prefix-append a (x <+> b) in
      let last =
        ap (suffix visible) (sym (append_assoc a x b))
        ∙ suffix-append visible (a <+> x) b b_is pos in
      rw (given, not_short) (rw (first, last) refl)

mask_secret-short :
    (visible : ℕ) (s : String) → count s ≤ visible * 2 → mask_secret visible s ≡ stars (count s)
unfolding mask_secret count stars
mask_secret-short visible String.[] h = refl
mask_secret-short visible (String.◌∷◌ c s) h =
    let short : leb (suc (count s)) (visible * 2) ≡ true = ground (arith, h) in rw short refl

-- Two secrets with the same first and last `visible` characters and something between them are shown
-- alike, and so are two of the same length of at most twice as many characters, if `visible` is not 0.
pub mask_secret-hides :
    (visible : ℕ) (a x y b s t : String)
    → 0 < visible
    → count a ≡ visible
    → count b ≡ visible
    → 0 < count x
    → 0 < count y
    → count s ≡ count t
    → count s ≤ visible * 2
    → (mask_secret visible (a <+> x <+> b) ≡ mask_secret visible (a <+> y <+> b))
      × (mask_secret visible s ≡ mask_secret visible t)
mask_secret-hides visible a x y b s t pos a_is b_is more more' same short = (
  mask_secret-long visible a x b pos a_is b_is more
      ∙ sym (mask_secret-long visible a y b pos a_is b_is more'),
  mask_secret-short visible s short
      ∙ ap stars same
      ∙ sym (mask_secret-short visible t (omega (arith, same, short))),
)
