-- ===== src/Api/Validate/Email/Matches.antt =====
-- The matcher accepts what the expression describes, and nothing else.
use spin_the_wheel.Prelude.{
  ℕ, ◌≤◌, ◌≡◌, ◌↔◌, ◌⊎◌, refl, ap, ◌∙◌, Bool, true, false, ◌&&◌, ◌||◌, [], ◌∷◌, ◌++◌, Bytes, leb,
  ◌==◌, all, All, and-eq-true, length, arith, inl, inr,
}
use spin_the_wheel.Api.Validate.Email.{
  is_letter, is_domain, is_local, matches_top, matches_domain, matches_host, matches_local,
  matches_email,
}

-- What the expression says of a text, as its three parts.
pub record IsEmail (s : Bytes) : Type 0 where
  pub local : Bytes
  pub domain : Bytes
  pub top : Bytes
  pub parts : s ≡ local ++ 0x40 ∷ (domain ++ 0x2e ∷ top)
  pub some_local : 1 ≤ length local
  pub locals : All (λ c. is_local c ≡ true) local
  pub some_domain : 1 ≤ length domain
  pub domains : All (λ c. is_domain c ≡ true) domain
  pub two_letters : 2 ≤ length top
  pub letters : All (λ c. is_letter c ≡ true) top

or_left : (a b : Bool) → a ≡ true → (a || b) ≡ true
or_left true b h = refl
or_left false b h = cc

or_right : (a b : Bool) → b ≡ true → (a || b) ≡ true
or_right true b h = refl
or_right false b h = h

both_true : (a b : Bool) → a ≡ true → b ≡ true → (a && b) ≡ true
both_true true b h k = k
both_true false b h k = h

or-eq-true : (a b : Bool) → (a || b) ≡ true → (a ≡ true) ⊎ (b ≡ true)
or-eq-true true b e = inl refl
or-eq-true false b e = inr e

-- A class of characters, as many as there are in a text.
abbrev Are : (ℕ → Bool) → Bytes → Type 0
Are p cs = All (λ c. p c ≡ true) cs

all_iff : (p : ℕ → Bool) (cs : Bytes) → (all p cs ≡ true) ↔ Are p cs
all_iff p [] = (λ _. tt, λ _. refl)
all_iff p (c ∷ cs) = (
  λ e. let (first, rest) = and-eq-true (p c) (all p cs) e in (first, (all_iff p cs).0 rest),
  λ h. rw h.0 ((all_iff p cs).1 h.1),
)

-- A domain, a dot and a top level, behind a text of the class.
abbrev Host : ℕ → Bytes → Type 0
Host least cs =
    (domain : Bytes) × (top : Bytes) × (cs ≡ domain ++ 0x2e ∷ top)
    × (least ≤ length domain)
    × Are is_domain domain
    × (2 ≤ length top)
    × Are is_letter top

matches_domain-Host : (cs : Bytes) → matches_domain cs ≡ true → Host 0 cs
unfolding matches_domain matches_top
matches_domain-Host [] e = cc
matches_domain-Host (c ∷ cs) e =
    elim (or-eq-true ((c == 0x2e) && matches_top cs) (is_domain c && matches_domain cs) e) [
      | inl h ↦
          let (dot, top) = and-eq-true (c == 0x2e) (matches_top cs) h in
          let (two, letters) = and-eq-true (leb 2 (length cs)) (all is_letter cs) top in
          let same_dot : c ≡ 0x2e = ground arith in
          (
            [],
            cs,
            ap (λ x. x ∷ cs) same_dot,
            omega arith,
            tt,
            ground arith,
            (all_iff is_letter cs).0 letters,
          )
      | inr h ↦
          let (first, rest) = and-eq-true (is_domain c) (matches_domain cs) h in
          let (domain, top, parts, least, are, two, letters) = matches_domain-Host cs rest in
          (c ∷ domain, top, ap (λ xs. c ∷ xs) parts, omega arith, (first, are), two, letters)
    ]

matches_domain_lem :
    (domain top : Bytes)
    → Are is_domain domain
    → 2 ≤ length top
    → Are is_letter top
    → matches_domain (domain ++ 0x2e ∷ top) ≡ true
unfolding matches_domain matches_top
matches_domain_lem [] top h two letters = or_left (matches_top top) (matches_domain top) (
    both_true (leb 2 (length top)) (all is_letter top) (ground arith)
      ((all_iff is_letter top).1 letters))
matches_domain_lem (c ∷ cs) top h two letters =
    or_right ((c == 0x2e) && matches_top (cs ++ 0x2e ∷ top)) _ (
      both_true (is_domain c) (matches_domain (cs ++ 0x2e ∷ top)) h.0
        (matches_domain_lem cs top h.1 two letters))

matches_host-Host : (cs : Bytes) → matches_host cs ≡ true → Host 1 cs
unfolding matches_host
matches_host-Host [] e = cc
matches_host-Host (c ∷ cs) e =
    let (first, rest) = and-eq-true (is_domain c) (matches_domain cs) e in
    let (domain, top, parts, least, are, two, letters) = matches_domain-Host cs rest in
    (c ∷ domain, top, ap (λ xs. c ∷ xs) parts, omega arith, (first, are), two, letters)

matches_host_lem : (cs : Bytes) → Host 1 cs → matches_host cs ≡ true
unfolding matches_host
matches_host_lem cs ([], top, parts, least, are, two, letters) = absurd (omega arith)
matches_host_lem cs (d ∷ ds, top, parts, least, are, two, letters) =
    ap matches_host parts
    ∙ both_true (is_domain d) (matches_domain (ds ++ 0x2e ∷ top)) are.0
        (matches_domain_lem ds top are.1 two letters)

-- A local part, an at sign and a host.
abbrev Address : ℕ → Bytes → Type 0
Address least cs =
    (local : Bytes) × (host : Bytes) × (cs ≡ local ++ 0x40 ∷ host)
    × (least ≤ length local)
    × Are is_local local
    × Host 1 host

matches_local-Address : (cs : Bytes) → matches_local cs ≡ true → Address 0 cs
unfolding matches_local
matches_local-Address [] e = cc
matches_local-Address (c ∷ cs) e =
    elim (or-eq-true ((c == 0x40) && matches_host cs) (is_local c && matches_local cs) e) [
      | inl h ↦
          let (sign, host) = and-eq-true (c == 0x40) (matches_host cs) h in
          let same_sign : c ≡ 0x40 = ground arith in
          ([], cs, ap (λ x. x ∷ cs) same_sign, omega arith, tt, matches_host-Host cs host)
      | inr h ↦
          let (first, rest) = and-eq-true (is_local c) (matches_local cs) h in
          let (local, host, parts, least, are, rest_host) = matches_local-Address cs rest in
          (c ∷ local, host, ap (λ xs. c ∷ xs) parts, omega arith, (first, are), rest_host)
    ]

matches_local_lem :
    (local host : Bytes)
    → Are is_local local
    → Host 1 host
    → matches_local (local ++ 0x40 ∷ host) ≡ true
unfolding matches_local
matches_local_lem [] host h at_host = or_left (matches_host host) _ (matches_host_lem host at_host)
matches_local_lem (c ∷ cs) host h at_host =
    or_right ((c == 0x40) && matches_host (cs ++ 0x40 ∷ host)) _ (
      both_true (is_local c) (matches_local (cs ++ 0x40 ∷ host)) h.0
        (matches_local_lem cs host h.1 at_host))

matches_email-IsEmail : (s : Bytes) → matches_email s ≡ true → IsEmail s
unfolding matches_email
matches_email-IsEmail [] e = cc
matches_email-IsEmail (c ∷ cs) e =
    let (first, rest) = and-eq-true (is_local c) (matches_local cs) e in
    let (
      local,
      host,
      parts,
      least,
      are,
      (domain, top, host_parts, some_domain, domains, two, letters),
    ) =
      matches_local-Address cs rest in
    record {
      local = c ∷ local;
      domain = domain;
      top = top;
      parts = ap (λ xs. c ∷ xs) (parts ∙ ap (λ xs. local ++ 0x40 ∷ xs) host_parts);
      some_local = omega arith;
      locals = (first, are);
      some_domain = some_domain;
      domains = domains;
      two_letters = two;
      letters = letters;
    }

abbrev address_of : {s : Bytes} → IsEmail s → Address 1 s
address_of e = (
  e.local,
  e.domain ++ 0x2e ∷ e.top,
  e.parts,
  e.some_local,
  e.locals,
  (e.domain, e.top, refl, e.some_domain, e.domains, e.two_letters, e.letters),
)

address_matches : (s : Bytes) → Address 1 s → matches_email s ≡ true
unfolding matches_email
address_matches s ([], host, parts, least, are, at_host) = absurd (omega arith)
address_matches s (c ∷ cs, host, parts, least, are, at_host) =
    ap matches_email parts
    ∙ both_true (is_local c) (matches_local (cs ++ 0x40 ∷ host)) are.0
        (matches_local_lem cs host are.1 at_host)

-- The matcher of `validEmail` accepts a text exactly where it is a local part, an at sign, a domain, a
-- dot and at least two letters, each of the characters of its class and none empty.
pub matches_email_iff : (s : Bytes) → (matches_email s ≡ true) ↔ IsEmail s
matches_email_iff s = (matches_email-IsEmail s, λ e. address_matches s (address_of e))
