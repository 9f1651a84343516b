-- ===== src/Auth/Slug.antt =====
-- apps/api/src/auth/auth.service.ts: slugifyOrganizationName.
use Prim.Native.Char.{Char, code}
use Prim.Native.String.{◌++◌ as concat}
use unified_inbox.Prelude.{
  String, ◌≡◌, refl, Bool, true, false, ◌&&◌, ◌||◌, if◌then◌else◌, ◌==◌, leb, not, arith,
}
use unified_inbox.Prelude.Text.{without_leading, without_trailing, trailing_step, is_empty}
use unified_inbox.Runtime.{Runtime}

-- `[a-z0-9]`
abbrev pub is_alnum : Char → Bool
is_alnum c = (leb 97 (code c) && leb (code c) 122) || (leb 48 (code c) && leb (code c) 57)

-- The six replacements of a Turkish letter, of which at most one applies.
abbrev plain_letter : Char → String
plain_letter c =
    if code c == 287 || code c == 286
    then "g"
    else if code c == 252 || code c == 220
    then "u"
    else if code c == 351 || code c == 350
    then "s"
    else if code c == 305 || code c == 304
    then "i"
    else if code c == 246 || code c == 214
    then "o"
    else if code c == 231 || code c == 199
    then "c"
    else String.◌∷◌ c ""

abbrev pub plain_letters : String → String
plain_letters String.[] = ""
plain_letters (String.◌∷◌ c s) = concat (plain_letter c) (plain_letters s)

-- `replace(/[\u0300-\u036f]/g, "")`
abbrev pub without_marks : String → String
without_marks String.[] = ""
without_marks (String.◌∷◌ c s) =
    if leb 0x300 (code c) && leb (code c) 0x36f
    then without_marks s
    else String.◌∷◌ c (without_marks s)

-- A dash before the text, if there is none.
abbrev pub dash : String → String
dash String.[] = "-"
dash (String.◌∷◌ c s) = if code c == 45 then String.◌∷◌ c s else String.◌∷◌ "-" (String.◌∷◌ c s)

-- `replace(/[^a-z0-9]+/g, "-")`
abbrev pub hyphenated : String → String
hyphenated String.[] = ""
hyphenated (String.◌∷◌ c s) =
    if is_alnum c then String.◌∷◌ c (hyphenated s) else dash (hyphenated s)

-- `replace(/-{2,}/g, "-")`
abbrev pub single_dashes : String → String
single_dashes String.[] = ""
single_dashes (String.◌∷◌ c s) =
    if code c == 45 then dash (single_dashes s) else String.◌∷◌ c (single_dashes s)

-- `slugifyOrganizationName`
unfoldable pub slugify_organization_name : Runtime → String → String
slugify_organization_name rt value = single_dashes (
    without_trailing 45 (
      without_leading 45
        (hyphenated (rt.to_lower_case (without_marks (rt.normalize_nfkd (plain_letters value)))))))

-- Letters, digits and single dashes; the flag says whether a dash stands before.
abbrev is_dashed : Bool → String → Bool
is_dashed b String.[] = true
is_dashed b (String.◌∷◌ c s) =
    if is_alnum c then is_dashed false s else code c == 45 && (not b && is_dashed true s)

-- Words of letters and digits, separated by single dashes.
abbrev is_words : Bool → String → Bool
is_words b String.[] = not b
is_words b (String.◌∷◌ c s) =
    if is_alnum c then is_words false s else code c == 45 && (not b && is_words true s)

abbrev pub is_slug : String → Bool
is_slug s = is_empty s || is_words true s

dash-is_dashed : (s : String) → is_dashed false s ≡ true → is_dashed false (dash s) ≡ true
dash-is_dashed String.[] h = refl
dash-is_dashed (String.◌∷◌ c s) h = put (code c == 45) refl
  where
    put :
        (b : Bool)
        → (code c == 45) ≡ b
        → is_dashed false (if b then String.◌∷◌ c s else String.◌∷◌ "-" (String.◌∷◌ c s)) ≡ true
    put true e = h
    put false e = ground arith

hyphenated-is_dashed : (s : String) → is_dashed false (hyphenated s) ≡ true
hyphenated-is_dashed String.[] = refl
hyphenated-is_dashed (String.◌∷◌ c s) =
    ground (arith, hyphenated-is_dashed s, dash-is_dashed (hyphenated s) (hyphenated-is_dashed s))

after_dash : (s : String) → is_dashed true s ≡ true → is_dashed true (without_leading 45 s) ≡ true
after_dash String.[] h = refl
after_dash (String.◌∷◌ c s) h = ground arith

leading-is_dashed :
    (s : String) → is_dashed false s ≡ true → is_dashed true (without_leading 45 s) ≡ true
leading-is_dashed String.[] h = refl
leading-is_dashed (String.◌∷◌ c s) h = ground (arith, after_dash s)

trailing_step-is_words :
    (b : Bool) (c : Char) (s t : String)
    → is_dashed b (String.◌∷◌ c s) ≡ true
    → (is_dashed false s ≡ true → (is_empty t || is_words false t) ≡ true)
    → (is_dashed true s ≡ true → (is_empty t || is_words true t) ≡ true)
    → (is_empty (trailing_step 45 c t) || is_words b (trailing_step 45 c t)) ≡ true
trailing_step-is_words b c s String.[] h k l = last (code c == 45) refl
  where
    last :
        (d : Bool)
        → (code c == 45) ≡ d
        → (is_empty (if d then "" else String.◌∷◌ c "")
            || is_words b (if d then "" else String.◌∷◌ c ""))
          ≡ true
    last true e = refl
    last false e = ground arith
trailing_step-is_words b c s (String.◌∷◌ d t) h k l = ground arith

trailing-is_words :
    (b : Bool) (s : String)
    → is_dashed b s ≡ true
    → (is_empty (without_trailing 45 s) || is_words b (without_trailing 45 s)) ≡ true
trailing-is_words b String.[] h = refl
trailing-is_words b (String.◌∷◌ c s) h =
    trailing_step-is_words b c s (without_trailing 45 s) h (trailing-is_words false s)
      (trailing-is_words true s)

dash-is_words : (s : String) → is_words true s ≡ true → is_words false (dash s) ≡ true
dash-is_words String.[] h = absurd cc
dash-is_words (String.◌∷◌ c s) h = put (code c == 45) refl
  where
    put :
        (b : Bool)
        → (code c == 45) ≡ b
        → is_words false (if b then String.◌∷◌ c s else String.◌∷◌ "-" (String.◌∷◌ c s)) ≡ true
    put true e = ground arith
    put false e = ground arith

single_dashes-is_words :
    (b : Bool) (s : String) → is_words b s ≡ true → is_words b (single_dashes s) ≡ true
single_dashes-is_words b String.[] h = h
single_dashes-is_words b (String.◌∷◌ c s) h = ground (
  arith,
  single_dashes-is_words false s,
  single_dashes-is_words true s,
  dash-is_words (single_dashes s),
)

single_dashes-is_slug : (s : String) → is_slug s ≡ true → is_slug (single_dashes s) ≡ true
single_dashes-is_slug String.[] h = refl
single_dashes-is_slug (String.◌∷◌ c s) h =
    ground (arith, single_dashes-is_words true (String.◌∷◌ c s))

-- The slug of an organization is empty or consists of words of lower-case letters and digits with
-- single dashes between them, whatever the runtime's Unicode tables make of the name.
pub slugify-is_slug :
    (rt : Runtime) (value : String) → is_slug (slugify_organization_name rt value) ≡ true
unfolding slugify_organization_name
slugify-is_slug rt value =
    let text = rt.to_lower_case (without_marks (rt.normalize_nfkd (plain_letters value))) in
    let trimmed = without_leading 45 (hyphenated text) in
    single_dashes-is_slug (without_trailing 45 trimmed) (
      trailing-is_words true trimmed
        (leading-is_dashed (hyphenated text) (hyphenated-is_dashed text)))

slug_test : is_words true "acme-co" ≡ true
slug_test = refl
