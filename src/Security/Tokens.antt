-- ===== src/Security/Tokens.antt =====
-- Who may call the API.
use software_engineering_age.Prelude.{
  Bool-cases, inl, inr, String, ◌<>◌, ◌≡◌, ◌↔◌, true, Option, none, some, eq_iff, ap, sym, subst,
  arith, ◌∙◌, refl, ◌&&◌, ℕ, suc, zero, if◌then◌else◌,
}
use text.Mathlib.Text.{starts_with}
use text.Mathlib.TextLemmas.{nil-append, cons-append}
use software_engineering_age.Prelude.Text
use software_engineering_age.Effects.{ok}
use software_engineering_age.Security.{
  UrlLibrary, bearer, is_ascii, compare_digest, unless_equal, require_api_token,
  websocket_authorized,
}

drop-append : (n : ℕ) (p s : String) → Text.length p ≡ n → Text.drop n (p <> s) ≡ s
drop-append zero String.[] s h = rw nil-append refl
drop-append zero (String.◌∷◌ c p) s h = ground arith
drop-append (suc n) String.[] s h = ground arith
drop-append (suc n) (String.◌∷◌ c p) s h = rw cons-append (drop-append n p s (omega arith))

take-drop : (n : ℕ) (s : String) → Text.take n s <> Text.drop n s ≡ s
take-drop zero s = nil-append s
take-drop (suc n) String.[] = nil-append ""
take-drop (suc n) (String.◌∷◌ c s) = rw cons-append (ap (String.◌∷◌ c) (take-drop n s))

length-take :
    (n : ℕ) (s : String) → Text.nonempty (Text.drop n s) ≡ true → Text.length (Text.take n s) ≡ n
length-take zero s h = refl
length-take (suc n) String.[] h = cc
length-take (suc n) (String.◌∷◌ c s) h = ap suc (length-take n s h)

nonempty-append : (p s : String) → Text.nonempty s ≡ true → Text.nonempty (p <> s) ≡ true
nonempty-append String.[] s h = rw nil-append h
nonempty-append (String.◌∷◌ c p) s h = rw cons-append refl

equal : (s expected : String) → unless_equal (compare_digest s expected) ≡ ok tt → s ≡ expected
unfolding compare_digest
equal s expected h = (eq_iff s expected).0 (ground arith)

same :
    (s expected : String)
    → is_ascii expected ≡ true
    → s ≡ expected
    → compare_digest s expected ≡ ok true
unfolding compare_digest
same s expected ascii e = ground (arith, eq_iff s expected, eq_iff expected expected)

has_header :
    (urls : UrlLibrary) (header expected : String)
    → Text.nonempty expected ≡ true
    → bearer urls (some header) ≡ expected
    → (starts_with (urls.lower header) "bearer " ≡ true) × (Text.drop 7 header ≡ expected)
has_header urls header expected set h =
    elim (Bool-cases (Text.nonempty header && starts_with (urls.lower header) "bearer ")) [
      | inl good ↦
          (ground arith, subst (λ b. (if b then Text.drop 7 header else "") ≡ expected) good h)
      | inr bad ↦
          let empty : "" ≡ expected =
            subst (λ b. (if b then Text.drop 7 header else "") ≡ expected) bad h in
          let wrong : Text.nonempty "" ≡ true =
            subst (λ t. Text.nonempty t ≡ true) (sym empty) set in
          cc
    ]

-- With a token of ASCII characters configured, an HTTP call passes exactly when its header is that
-- token after seven characters, which read "bearer " in lower case, and then the event stream
-- accepts the same header too, whatever its query says.
pub require_api_token_iff :
    (urls : UrlLibrary) (expected : String) (authorization token : Option String)
    → Text.nonempty expected ≡ true
    → is_ascii expected ≡ true
    → ((require_api_token urls (some expected) authorization ≡ ok tt) ↔ (
        (p : String) × (authorization ≡ some (p <> expected))
        × (Text.length p ≡ 7)
        × (starts_with (urls.lower (p <> expected)) "bearer " ≡ true)))
      × (require_api_token urls (some expected) authorization ≡ ok tt
          → websocket_authorized urls (some expected) authorization token ≡ ok true)
unfolding require_api_token websocket_authorized
require_api_token_iff urls expected authorization token set ascii =
    ((only_if authorization, back), stream authorization)
  where
    admitted :
        (o : Option String)
        → (if Text.nonempty expected
            then unless_equal (compare_digest (bearer urls o) expected)
            else ok tt)
          ≡ ok tt
        → bearer urls o ≡ expected
    admitted o h = equal _ expected (
        subst
          (λ b.
            (if b then unless_equal (compare_digest (bearer urls o) expected) else ok tt) ≡ ok tt)
          set h)

    only_if :
        (o : Option String)
        → require_api_token urls (some expected) o ≡ ok tt
        → (p : String) × (o ≡ some (p <> expected))
          × (Text.length p ≡ 7)
          × (starts_with (urls.lower (p <> expected)) "bearer " ≡ true)
    only_if none h =
        let wrong : Text.nonempty "" ≡ true =
          subst (λ t. Text.nonempty t ≡ true) (sym (admitted none h)) set in
        cc
    only_if (some header) h =
        let (starts, rest) = has_header urls header expected set (admitted (some header) h) in
        let whole : header ≡ Text.take 7 header <> expected =
          sym (take-drop 7 header) ∙ ap (λ r. Text.take 7 header <> r) rest in
        (
          Text.take 7 header,
          ap some whole,
          length-take 7 header (subst (λ t. Text.nonempty t ≡ true) (sym rest) set),
          subst (λ t. starts_with (urls.lower t) "bearer " ≡ true) whole starts,
        )

    back :
        (p : String) × (authorization ≡ some (p <> expected))
          × (Text.length p ≡ 7)
          × (starts_with (urls.lower (p <> expected)) "bearer " ≡ true)
        → require_api_token urls (some expected) authorization ≡ ok tt
    back (p, e, seven, starts) =
        rw
          (
            e,
            set,
            nonempty-append p expected set,
            starts,
            drop-append 7 p expected seven,
            same expected expected ascii refl,
          )
          refl

    stream :
        (o : Option String)
        → require_api_token urls (some expected) o ≡ ok tt
        → websocket_authorized urls (some expected) o token ≡ ok true
    stream none h =
        let wrong : Text.nonempty "" ≡ true =
          subst (λ t. Text.nonempty t ≡ true) (sym (admitted none h)) set in
        cc
    stream (some header) h =
        let (starts, rest) = has_header urls header expected set (admitted (some header) h) in
        rw (set, starts, rest, same expected expected ascii refl) refl
