-- ===== src/Prelude/Blank.antt =====
-- A joined text with a part that is not blank is not blank.
use Prim.Native.String.append
use Prim.Native.String.compare
use Prim.Native.String.{String, [], ◌∷◌, ◌++◌}
use mathlib.Core.Path.{◌≡◌, refl}
use mathlib.Core.Bool.{Bool, true, not, ◌&&◌, false}
use mathlib.Core.List.{List}
use mathlib.Core.List
use devin_automation.Prelude.Tests.{if◌then◌else◌}
use devin_automation.Prelude.Equality.{string_eq}
use devin_automation.Prelude.Texts.{is_blank, concat}

is_blank-append : (a b : String) → is_blank b ≡ false → is_blank (a ++ b) ≡ false
is_blank-append [] b h = rw (append.nil b) h
is_blank-append (c ∷ s) b h = rw (append.cons c s b) (rw (compare.cons-nil c (s ++ b)) refl)

is_blank-append_left : (a b : String) → is_blank a ≡ false → is_blank (a ++ b) ≡ false
is_blank-append_left [] b h = cc
is_blank-append_left (c ∷ s) b h = rw (append.cons c s b) (rw (compare.cons-nil c (s ++ b)) refl)

pub is_blank-concat :
    (parts : List String) (last : String)
    → is_blank last ≡ false
    → is_blank (concat (List.◌++◌ parts (List.◌∷◌ last List.[]))) ≡ false
unfolding concat
is_blank-concat List.[] last h = is_blank-append_left last "" h
is_blank-concat (List.◌∷◌ s parts) last h =
    is_blank-append s (concat (List.◌++◌ parts (List.◌∷◌ last List.[])))
      (is_blank-concat parts last h)

pub is_blank-concat_first :
    (s : String) (rest : List String)
    → is_blank s ≡ false
    → is_blank (concat (List.◌∷◌ s rest)) ≡ false
unfolding concat
is_blank-concat_first s rest h = is_blank-append_left s (concat rest) h

-- A guard that answers a text, and what the code goes on with.
pub is_blank-guard :
    (b : Bool) (problem rest : String) (passes : Bool)
    → is_blank problem ≡ false
    → is_blank rest ≡ passes
    → is_blank (if not b then problem else rest) ≡ (b && passes)
is_blank-guard true problem rest passes named others = others
is_blank-guard false problem rest passes named others = named

pub is_blank-veto :
    (b : Bool) (problem rest : String) (passes : Bool)
    → is_blank problem ≡ false
    → is_blank rest ≡ passes
    → is_blank (if b then problem else rest) ≡ (not b && passes)
is_blank-veto true problem rest passes named others = named
is_blank-veto false problem rest passes named others = others
