-- ===== src/Text/Laws.antt =====
-- What the text tests decide: a text starts with, ends with or contains another.
use Prim.Native.Char.{Char, code}
use Prim.Native.String.{[], ◌∷◌, ◌++◌}
use text.Mathlib.TextEquality.{Char-path}
use text.Mathlib.TextLemmas.{nil-append, cons-append, cons-eq-cons, cons-ne-nil}
use checkgate.Common.{
  String, ◌≡◌, ◌↔◌, refl, ap, sym, ◌∙◌, true, arith, str_eq, eq_iff, ==_iff, Bool-cases, inl, inr,
}
use checkgate.Text.{same_char, starts_with, ends_with, contains}

abbrev pub StartsWith : String → String → Type 0
StartsWith s p = (t : String) × (s ≡ p ++ t)

abbrev pub EndsWith : String → String → Type 0
EndsWith s p = (t : String) × (s ≡ t ++ p)

abbrev pub Contains : String → String → Type 0
Contains s p = (t u : String) × (s ≡ t ++ (p ++ u))

same_char_iff : (c d : Char) → (same_char c d ≡ true) ↔ (c ≡ d)
same_char_iff c d = (
  λ h. Char-path c d ((==_iff (code c) (code d)).0 h),
  λ e. (==_iff (code c) (code d)).1 (ap code e),
)

starts_with_sound : (s p : String) → starts_with s p ≡ true → StartsWith s p
unfolding starts_with
starts_with_sound s [] h = (s, sym (nil-append s))
starts_with_sound [] (d ∷ p) h = cc
starts_with_sound (c ∷ s) (d ∷ p) h =
    let (t, e) = starts_with_sound s p (ground arith) in
    (t, rw cons-append (cc ((same_char_iff c d).0 (ground arith), e)))

starts_with_complete : (s p : String) → StartsWith s p → starts_with s p ≡ true
unfolding starts_with
starts_with_complete s [] h = refl
starts_with_complete [] (d ∷ p) (t, e) =
    absurd (cons-ne-nil d (p ++ t) (sym (e ∙ cons-append d p t)))
starts_with_complete (c ∷ s) (d ∷ p) (t, e) =
    let (same, rest) = cons-eq-cons.0 (e ∙ cons-append d p t) in
    ground (arith, (same_char_iff c d).1 same, starts_with_complete s p (t, rest))

-- `starts_with` decides whether the text is the pattern with some text behind it.
pub starts_with_iff : (s p : String) → (starts_with s p ≡ true) ↔ StartsWith s p
starts_with_iff s p = (starts_with_sound s p, starts_with_complete s p)

ends_with_sound : (s p : String) → ends_with s p ≡ true → EndsWith s p
unfolding ends_with
ends_with_sound [] p h = ("", (eq_iff "" p).0 h ∙ sym (nil-append p))
ends_with_sound (c ∷ s) p h = elim (Bool-cases (str_eq (c ∷ s) p)) [
  | inl same ↦ ("", (eq_iff _ p).0 same ∙ sym (nil-append p))
  | inr other ↦
      let (t, e) = ends_with_sound s p (rw other at h) in
      (c ∷ t, rw cons-append (ap (λ x. c ∷ x) e))
]

ends_with_complete : (s p : String) → EndsWith s p → ends_with s p ≡ true
unfolding ends_with
ends_with_complete [] p ([], e) = (eq_iff "" p).1 (e ∙ nil-append p)
ends_with_complete [] p (d ∷ t, e) = absurd (cons-ne-nil d (t ++ p) (sym (e ∙ cons-append d t p)))
ends_with_complete (c ∷ s) p ([], e) = ground (arith, (eq_iff (c ∷ s) p).1 (e ∙ nil-append p))
ends_with_complete (c ∷ s) p (d ∷ t, e) =
    let (same, rest) = cons-eq-cons.0 (e ∙ cons-append d t p) in
    ground (arith, ends_with_complete s p (t, rest))

pub ends_with_iff : (s p : String) → (ends_with s p ≡ true) ↔ EndsWith s p
ends_with_iff s p = (ends_with_sound s p, ends_with_complete s p)

contains_sound : (s p : String) → contains s p ≡ true → Contains s p
unfolding contains
contains_sound [] p h = let (u, e) = starts_with_sound "" p h in ("", u, e ∙ sym (nil-append _))
contains_sound (c ∷ s) p h = elim (Bool-cases (starts_with (c ∷ s) p)) [
  | inl now ↦ let (u, e) = starts_with_sound _ p now in ("", u, e ∙ sym (nil-append _))
  | inr later ↦
      let (t, u, e) = contains_sound s p (rw later at h) in
      (c ∷ t, u, rw cons-append (ap (λ x. c ∷ x) e))
]

contains_complete : (s p : String) → Contains s p → contains s p ≡ true
unfolding contains
contains_complete [] p ([], u, e) = starts_with_complete "" p (u, e ∙ nil-append _)
contains_complete [] p (d ∷ t, u, e) =
    absurd (cons-ne-nil d (t ++ (p ++ u)) (sym (e ∙ cons-append d t (p ++ u))))
contains_complete (c ∷ s) p ([], u, e) =
    ground (arith, starts_with_complete (c ∷ s) p (u, e ∙ nil-append _))
contains_complete (c ∷ s) p (d ∷ t, u, e) =
    let (same, rest) = cons-eq-cons.0 (e ∙ cons-append d t _) in
    ground (arith, contains_complete s p (t, u, rest))

pub contains_iff : (s p : String) → (contains s p ≡ true) ↔ Contains s p
contains_iff s p = (contains_sound s p, contains_complete s p)
