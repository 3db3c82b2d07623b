-- ===== src/Utils/Links/Found.antt =====
-- A link with a scheme is found wherever it stands in a text.
use Prim.Native.Char.{code, Char}
use rubica_bot.Prelude.{
  ℕ, zero, suc, ◌≡◌, refl, String, Bool, true, false, Option, none, some, List, [], ◌∷◌, ◌++◌,
  if◌then◌else◌, arith,
}
use rubica_bot.Prelude.Text.{◌<+>◌, is_space, is_empty, count}
use rubica_bot.Utils.Links.{
  Regex, matches, rounds, from_each, is_some, search, literal, link_pattern, contains_link,
}

module _ (is_word : ℕ → Bool) where
  is_some-append :
      (l m : List (Option ℕ × String)) → is_some is_word l ≡ true → is_some is_word (l ++ m) ≡ true
  is_some-append [] m h = ground (arith, h)
  is_some-append (p ∷ l) m h = refl

  rounds-is_some :
      (f : Option ℕ × String → List (Option ℕ × String)) (n : ℕ) (p : Option ℕ × String)
      → is_some is_word (rounds is_word f n p) ≡ true
  unfolding rounds
  rounds-is_some f zero p = refl
  rounds-is_some f (suc n) p = refl

  -- What matches at the head of a text whatever precedes it is found in every text that ends so.
  search-append :
      (r : Regex) (s t : String) (before : Option ℕ)
      → ((b : Option ℕ) → is_some is_word (matches is_word r (b, t)) ≡ true)
      → search is_word r before (s <+> t) ≡ true
  unfolding search
  search-append r String.[] String.[] before h = h before
  search-append r String.[] (String.◌∷◌ c t) before h = rw (h before) refl
  search-append r (String.◌∷◌ c s) t before h =
      ground (arith, search-append r s t (some (code c)) h)

  starts_link :
      (c : Char) (t : String) (b : Option ℕ)
      → is_space (code c) ≡ false
      → is_some is_word (matches is_word link_pattern (b, "http://" <+> String.◌∷◌ c t)) ≡ true
  unfolding matches literal from_each rounds
  starts_link c t b h = rw h (
      is_some-append _ _
        (is_some-append _ _ (is_some-append _ [] (rounds-is_some _ (count t) (some (code c), t)))))

  pub contains_link-http :
      (a b : String) (c : Char)
      → is_space (code c) ≡ false
      → contains_link is_word (a <+> "http://" <+> String.◌∷◌ c b) ≡ true
  unfolding contains_link
  contains_link-http a b c h =
      nonempty a (search-append link_pattern a _ none (λ before. starts_link c b before h))
    where
      nonempty :
          (a : String)
          → search is_word link_pattern none (a <+> "http://" <+> String.◌∷◌ c b) ≡ true
          → (if is_empty (a <+> "http://" <+> String.◌∷◌ c b)
              then false
              else search is_word link_pattern none (a <+> "http://" <+> String.◌∷◌ c b))
            ≡ true
      nonempty String.[] h = h
      nonempty (String.◌∷◌ d a) h = h
