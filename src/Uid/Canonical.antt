-- ===== src/Uid/Canonical.antt =====
-- The identifiers and their canonical texts are one type.
use mathlib.Core.Equiv.{◌≃◌, iso_to_equiv}
use mathlib.Core.HLevel.{Σ_prop_path}
use native.Mathlib.Nat.{ℕ_set}
use native.Mathlib.Bridge.{le_prop}
use spin_the_wheel.Prelude.{
  ◌≡◌, refl, sym, ap, ◌∙◌, Bool, true, false, Option, none, some, [], ◌∷◌, map, Bytes, AreBytes,
  length,
}
use spin_the_wheel.Uid.{parse, string}
use spin_the_wheel.Uid.Hex.{lower_digit}
use spin_the_wheel.Uid.Text.{parse-string, string-parse}

-- A UUID: sixteen bytes.
abbrev pub Uuid : Type 0
Uuid = (u : Bytes) × ((length u ≡ 16) × AreBytes u)

abbrev pub is_read : Option Bytes → Bool
is_read none = false
is_read (some u) = true

-- A text in lower case that `Parse` reads.
abbrev pub CanonicalText : Type 0
CanonicalText = (s : Bytes) × ((map lower_digit s ≡ s) × (is_read (parse s) ≡ true))

AreBytes-prop : (u : Bytes) → IsProp (AreBytes u)
AreBytes-prop [] = hlevel
AreBytes-prop (b ∷ bs) = hlevel (le_prop, AreBytes-prop bs)

Uuid-prop : (u : Bytes) → IsProp ((length u ≡ 16) × AreBytes u)
Uuid-prop u = hlevel (ℕ_set, AreBytes-prop u)

CanonicalText-prop : (s : Bytes) → IsProp ((map lower_digit s ≡ s) × (is_read (parse s) ≡ true))
CanonicalText-prop s = hlevel ℕ_set

value : (o : Option Bytes) → is_read o ≡ true → (u : Bytes) × (o ≡ some u)
value none e = cc
value (some u) e = (u, refl)

to_text : Uuid → CanonicalText
to_text (u, (size, bytes)) =
    let back = parse-string u size bytes in
    (
      string u,
      (sym (let (_, _, same_text) = string-parse (string u) u back in same_text), ap is_read back),
    )

from_text : CanonicalText → Uuid
from_text (s, (low, read)) =
    let (u, parsed) = value (parse s) read in
    let (size, bytes, same_text) = string-parse s u parsed in (u, (size, bytes))

value_known : (o : Option Bytes) (e : is_read o ≡ true) (u : Bytes) → o ≡ some u → (value o e).0 ≡ u
unfolding value
value_known none e u p = cc
value_known (some x) e u p = cc

text_back : (t : CanonicalText) → (to_text (from_text t)).0 ≡ t.0
unfolding to_text from_text
text_back (s, (low, read)) =
    let (u, parsed) = value (parse s) read in
    let (size, bytes, same_text) = string-parse s u parsed in same_text ∙ low

uuid_back : (x : Uuid) → (from_text (to_text x)).0 ≡ x.0
unfolding to_text from_text
uuid_back (u, (size, bytes)) =
    let back = parse-string u size bytes in value_known (parse (string u)) (ap is_read back) u back

-- `String` and `Parse` make one type of the identifiers, the lists of sixteen bytes, and of the texts in
-- lower case that `Parse` reads: an equivalence whose function is `String`.
pub string-Equiv : (e : Uuid ≃ CanonicalText) × ((x : Uuid) → (e.0 x).0 ≡ string x.0)
unfolding to_text
string-Equiv = (
  iso_to_equiv (record {
    fun = to_text;
    inv = from_text;
    rinv = λ t. Σ_prop_path CanonicalText-prop (text_back t);
    linv = λ x. Σ_prop_path Uuid-prop (uuid_back x);
  }),
  λ x. refl,
)
