-- ===== src/Api/Validate/Email.antt =====
-- `validEmail` of backend/internal/api/validate.go, with its expression
-- ^[A-Za-z0-9._%+\-]+@[A-Za-z0-9.\-]+\.[A-Za-z]{2,}$ as a matcher that goes through a text once.
pub mod Matches
use mathlib.Core.Path.{subst}
use spin_the_wheel.Prelude.{
  ℕ, ◌+◌, ◌≤◌, ◌≡◌, ◌≢◌, ◌↔◌, ◌⊎◌, refl, sym, ap, ◌∙◌, Bool, true, false, ◌&&◌, ◌||◌, Option, none,
  some, List, [], ◌∷◌, ◌++◌, Bytes, ltb, leb, between, ◌==◌, all, All, if◌then◌else◌, if-eq-some,
  and-eq-true, length, arith, Bool-cases, inl, inr,
}

unfoldable pub is_letter : ℕ → Bool
is_letter c = between 0x41 0x5a c || between 0x61 0x7a c

-- [A-Za-z0-9.\-]
unfoldable pub is_domain : ℕ → Bool
unfolding is_letter
is_domain c = is_letter c || between 0x30 0x39 c || (c == 0x2e) || (c == 0x2d)

-- [A-Za-z0-9._%+\-]
unfoldable pub is_local : ℕ → Bool
unfolding is_domain
is_local c = is_domain c || (c == 0x5f) || (c == 0x25) || (c == 0x2b)

-- [A-Za-z]{2,}
unfoldable pub matches_top : Bytes → Bool
unfolding is_letter
matches_top cs = leb 2 (length cs) && all is_letter cs

-- Behind a character of the domain: more of them, or a dot and the end.
unfoldable pub matches_domain : Bytes → Bool
unfolding is_domain matches_top
matches_domain [] = false
matches_domain (c ∷ cs) = ((c == 0x2e) && matches_top cs) || (is_domain c && matches_domain cs)

unfoldable pub matches_host : Bytes → Bool
unfolding matches_domain
matches_host [] = false
matches_host (c ∷ cs) = is_domain c && matches_domain cs

-- Behind a character of the local part: more of them, or an at sign and the domain.
unfoldable pub matches_local : Bytes → Bool
unfolding is_local matches_host
matches_local [] = false
matches_local (c ∷ cs) = ((c == 0x40) && matches_host cs) || (is_local c && matches_local cs)

-- `emailRe`
unfoldable pub matches_email : Bytes → Bool
unfolding matches_local
matches_email [] = false
matches_email (c ∷ cs) = is_local c && matches_local cs

module _ (lower trim : Bytes → Bytes) where
  -- `validEmail`
  unfoldable pub valid_email : Bytes → Option Bytes
  unfolding matches_email
  valid_email s =
      let t = lower (trim s) in
      if ltb 254 (length t) then none else if matches_email t then some t else none
