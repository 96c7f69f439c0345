-- ===== src/Base/Paths.antt =====
-- The parts of Go's `path` that the program uses. A path is the texts between its slashes.
use Prim.Native.Char.{Char, code}
use Prim.Native.String.{String, ◌++◌ as ◌<>◌}
use mathlib.Core.Path.{◌≡◌, refl}
use mathlib.Core.Bool.{Bool, false, ◌||◌}
use mathlib.Core.List.{List, [], ◌∷◌, ◌++◌}
use native.Mathlib.Omega.{arith}
use text.Mathlib.Text.{◌==◌ as str_eq}
use text.Mathlib.TextLemmas.{nil-append, cons-append}
use mathlib.Core.Logic.{inl, inr}
use omnicore_proxy.Base.Tests.{◌==◌, if◌then◌else◌, Bool-cases}

-- A character in front of the first text.
abbrev pub onto_first : Char → List String → List String
onto_first c [] = String.◌∷◌ c String.[] ∷ []
onto_first c (s ∷ ss) = String.◌∷◌ c s ∷ ss

unfoldable pub segments : String → List String
segments String.[] = String.[] ∷ []
segments (String.◌∷◌ c s) =
    if code c == 47 then String.[] ∷ segments s else onto_first c (segments s)

unfoldable pub is_rooted : String → Bool
is_rooted String.[] = false
is_rooted (String.◌∷◌ c s) = code c == 47

-- A segment that `path.Clean` drops.
abbrev pub is_skipped : String → Bool
is_skipped s = str_eq s "" || str_eq s "."

-- A ".." takes the segment in front of it away, if there is one that is not itself a ".."; at the
-- root it is dropped. The list holds the segments in front, the last one first.
abbrev pub back : Bool → List String → List String
back rooted [] = if rooted then [] else ".." ∷ []
back rooted (top ∷ below) = if str_eq top ".." then ".." ∷ top ∷ below else below

abbrev pub clean_step : Bool → String → List String → List String
clean_step rooted s out =
    if is_skipped s then out else if str_eq s ".." then back rooted out else s ∷ out

unfoldable pub clean_onto : Bool → List String → List String → List String
clean_onto rooted out [] = out
clean_onto rooted out (s ∷ ss) = clean_onto rooted (clean_step rooted s out) ss

unfoldable pub joined : List String → String
joined [] = ""
joined (s ∷ []) = s
joined (s ∷ ss) = s <> ("/" <> joined ss)

abbrev pub reversed_onto : List String → List String → List String
reversed_onto acc [] = acc
reversed_onto acc (s ∷ ss) = reversed_onto (s ∷ acc) ss

-- The text of a cleaned path, whose segments come with the last one first.
unfoldable pub printed : Bool → List String → String
unfolding joined
printed rooted out =
    let text = joined (reversed_onto [] out) in
    if rooted then "/" <> text else if str_eq text "" then "." else text

-- `path.Clean`
unfoldable pub clean : String → String
unfolding printed clean_onto is_rooted segments
clean p = printed (is_rooted p) (clean_onto (is_rooted p) [] (segments p))

-- `path.Join` of two texts.
unfoldable pub join : String → String → String
unfolding clean
join a b =
    if str_eq a ""
    then if str_eq b "" then "" else clean b
    else if str_eq b ""
    then clean a
    else clean (a <> ("/" <> b))

segments-cons : (s : String) → (t : String) × (ts : List String) × (segments s ≡ t ∷ ts)
unfolding segments
segments-cons String.[] = (_, _, refl)
segments-cons (String.◌∷◌ c s) =
    let (t, ts, e) = segments-cons s in
    elim (Bool-cases (code c == 47)) [
      | inl h ↦ ("", segments s, rw h refl)
      | inr h ↦ (String.◌∷◌ c t, ts, rw (h, e) refl)
    ]

-- A slash between two paths puts their segments one behind the other.
pub segments-slash : (a b : String) → segments (a <> ("/" <> b)) ≡ segments a ++ segments b
unfolding segments
segments-slash String.[] b = rw (nil-append ("/" <> b), cons-append "/" "" b, nil-append b) refl
segments-slash (String.◌∷◌ c a) b =
    let (t, ts, e) = segments-cons a in
    let rest = segments-slash a b in
    elim (Bool-cases (code c == 47)) [
      | inl h ↦ rw (cons-append c a ("/" <> b), h, rest) refl
      | inr h ↦ rw (cons-append c a ("/" <> b), h, rest, e) refl
    ]

pub is_rooted-slash : (a b : String) → str_eq a "" ≡ false → is_rooted (a <> b) ≡ is_rooted a
unfolding is_rooted
is_rooted-slash String.[] b h = ground arith
is_rooted-slash (String.◌∷◌ c a) b h = rw (cons-append c a b) refl

pub clean_onto-append :
    (rooted : Bool) (out xs ys : List String)
    → clean_onto rooted out (xs ++ ys) ≡ clean_onto rooted (clean_onto rooted out xs) ys
unfolding clean_onto
clean_onto-append rooted out [] ys = refl
clean_onto-append rooted out (x ∷ xs) ys = clean_onto-append rooted (clean_step rooted x out) xs ys

-- The segments that name something.
unfoldable pub named : List String → List String
named [] = []
named (s ∷ ss) = if is_skipped s then named ss else s ∷ named ss

-- No segment leads back.
abbrev pub IsForward : List String → Type 0
IsForward [] = Unit
IsForward (s ∷ ss) = (str_eq s ".." ≡ false) × IsForward ss

pub clean_onto-forward :
    (rooted : Bool) (out ss : List String)
    → IsForward ss
    → clean_onto rooted out ss ≡ reversed_onto out (named ss)
unfolding clean_onto named
clean_onto-forward rooted out [] h = refl
clean_onto-forward rooted out (s ∷ ss) (h, hs) = elim (Bool-cases (is_skipped s)) [
  | inl blank ↦ rw blank (clean_onto-forward rooted out ss hs)
  | inr full ↦ rw (full, h) (clean_onto-forward rooted (s ∷ out) ss hs)
]
