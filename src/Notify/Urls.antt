-- ===== src/Notify/Urls.antt =====
-- What the preview of a url shows, and which hosts a plaintext url may have.
use Prim.Native.Char.{Char, code}
use Prim.Native.String.{◌++◌}
use text.Mathlib.TextLemmas.{nil-append, cons-append}
use checkgate.Common.{
  ℕ, suc, ◌≤◌, ◌≡◌, refl, ap, inl, inr, String, Bool, true, false, not, ◌||◌, ◌&&◌, some, ◌==◌,
  ==_iff, arith, Bool-cases, false-absurd, leb,
}
use checkgate.Text.{starts_with}
use checkgate.Text.Split.{strip_prefix}
use checkgate.Notify.{
  text_length, last_chars, preview_url, take_until, has_code, after_last, ends_authority, host_of,
  is_loopback, is_allowed_url,
}

text_length-append : (p s : String) → text_length s ≤ text_length (p ++ s)
text_length-append String.[] s = rw (nil-append s) (omega arith)
text_length-append (String.◌∷◌ c p) s =
    let rest = text_length-append p s in rw (cons-append c p s) (omega arith)

last_chars-append :
    (n : ℕ) (p s : String) → text_length s ≡ n → last_chars n (p ++ s) ≡ last_chars n s
last_chars-append n String.[] s h = ap (last_chars n) (nil-append s)
last_chars-append n (String.◌∷◌ c p) s h =
    let long = text_length-append p s in
    let over : leb (suc (text_length (p ++ s))) n ≡ false = ground arith in
    rw (cons-append c p s, over) (last_chars-append n p s h)

-- The preview of a url shows its last six characters and does not depend on what stands before them.
pub preview_url-append :
    (p tail : String) → text_length tail ≡ 6 → preview_url (p ++ tail) ≡ "…" ++ last_chars 6 tail
unfolding preview_url
preview_url-append p tail h = ap (λ s. "…" ++ s) (last_chars-append 6 p tail h)

-- a character that ends an authority, credentials, a port or opens an IPv6 literal
abbrev pub is_special : ℕ → Bool
is_special c = ends_authority c || c == 64 || c == 58 || c == 91

abbrev pub is_plain : String → Bool
is_plain String.[] = true
is_plain (String.◌∷◌ c s) = not (is_special (code c)) && is_plain s

take_until-plain :
    (is_separator : ℕ → Bool) (host : String) (c : Char) (rest : String)
    → ((d : ℕ) → is_special d ≡ false → is_separator d ≡ false)
    → is_separator (code c) ≡ true
    → is_plain host ≡ true
    → take_until is_separator (host ++ String.◌∷◌ c rest) ≡ host
take_until-plain is_separator String.[] c rest special ends h =
    rw (nil-append (String.◌∷◌ c rest), ends) refl
take_until-plain is_separator (String.◌∷◌ d host) c rest special ends h =
    let here : is_separator (code d) ≡ false = special (code d) (ground arith) in
    rw (cons-append d host (String.◌∷◌ c rest), here)
      (ap (String.◌∷◌ d) (take_until-plain is_separator host c rest special ends (ground arith)))

take_until-all :
    (is_separator : ℕ → Bool) (host : String)
    → ((d : ℕ) → is_special d ≡ false → is_separator d ≡ false)
    → is_plain host ≡ true
    → take_until is_separator host ≡ host
take_until-all is_separator String.[] special h = refl
take_until-all is_separator (String.◌∷◌ d host) special h =
    let here : is_separator (code d) ≡ false = special (code d) (ground arith) in
    rw here (ap (String.◌∷◌ d) (take_until-all is_separator host special (ground arith)))

has_code-plain : (host : String) → is_plain host ≡ true → has_code 64 host ≡ false
has_code-plain String.[] h = refl
has_code-plain (String.◌∷◌ d host) h = let rest = has_code-plain host (ground arith) in ground arith

after_last-plain : (host : String) → is_plain host ≡ true → after_last 64 host ≡ host
after_last-plain String.[] h = refl
after_last-plain (String.◌∷◌ d host) h =
    let rest = has_code-plain host (ground arith) in
    let here : (code d == 64) ≡ false = ground arith in rw (rest, here) refl

host_of-plain : (host : String) → is_plain host ≡ true → host_of host ≡ host
host_of-plain String.[] h = refl
host_of-plain (String.◌∷◌ d host) h =
    let here : (code d == 91) ≡ false = ground arith in
    rw here (take_until-all (λ c. c == 58) (String.◌∷◌ d host) (λ c n. ground arith) h)

strip_prefix-append : (p s : String) → strip_prefix (p ++ s) p ≡ some s
unfolding strip_prefix
strip_prefix-append String.[] s = ap some (nil-append s)
strip_prefix-append (String.◌∷◌ c p) s =
    let same = (==_iff (code c) (code c)).1 refl in
    rw (cons-append c p s, strip_prefix, same) (strip_prefix-append p s)

-- two texts differ at a place that both have
abbrev differs : String → String → Bool
differs String.[] q = false
differs (String.◌∷◌ c p) String.[] = false
differs (String.◌∷◌ c p) (String.◌∷◌ d q) = not (code c == code d) || differs p q

starts_with-differs : (p s q : String) → differs p q ≡ true → starts_with (p ++ s) q ≡ false
unfolding starts_with
starts_with-differs String.[] s q h = false-absurd h
starts_with-differs (String.◌∷◌ c p) s String.[] h = false-absurd h
starts_with-differs (String.◌∷◌ c p) s (String.◌∷◌ d q) h =
    rw (cons-append c p s) (elim (Bool-cases (code c == code d)) [
      | inl e ↦ let rest = starts_with-differs p s q (ground arith) in ground arith
      | inr e ↦ rw e refl
    ])

-- A plaintext url whose host has no special character, followed by a path, a query or a fragment, is
-- allowed exactly when the host is a name of the loopback: a lookalike with a longer name is refused.
pub is_allowed_url-http :
    (host : String) (c : Char) (rest : String)
    → is_plain host ≡ true
    → ends_authority (code c) ≡ true
    → is_allowed_url ("http://" ++ (host ++ String.◌∷◌ c rest)) ≡ is_loopback host
unfolding is_allowed_url
is_allowed_url-http host c rest h ends =
    let no_tls = starts_with-differs "http://" (host ++ String.◌∷◌ c rest) "https://" refl in
    let authority : take_until ends_authority (host ++ String.◌∷◌ c rest) ≡ host =
      take_until-plain ends_authority host c rest (λ d n. ground arith) ends h in
    rw
      (
        no_tls,
        is_allowed_url,
        strip_prefix-append "http://" (host ++ String.◌∷◌ c rest),
        authority,
        after_last-plain host h,
        host_of-plain host h,
      )
      refl
