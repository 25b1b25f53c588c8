-- ===== src/Prelude/Text.antt =====
-- Texts: emptiness, and the separator that `join` puts between items.
use Prim.Native.String.{String, ◌++◌}
use mathlib.Core.Path.{◌≡◌, refl}
use mathlib.Core.Bool.{Bool, true, false}
use mathlib.Core.List.{List, [], ◌∷◌}
use text.Mathlib.TextLemmas.{cons-append, nil-append}

abbrev pub is_empty : String → Bool
is_empty String.[] = true
is_empty (String.◌∷◌ c s) = false

infixr 65 ◌++ˢ◌
abbrev pub ◌++ˢ◌ : String → String → String
s ++ˢ t = s ++ t

-- `items.join(sep)`.
unfoldable pub join : String → List String → String
join sep [] = ""
join sep (s ∷ []) = s
join sep (s ∷ t ∷ ts) = s ++ (sep ++ join sep (t ∷ ts))

pub is_empty-append : (s t : String) → is_empty s ≡ false → is_empty (s ++ t) ≡ false
is_empty-append String.[] t h = cc
is_empty-append (String.◌∷◌ c s) t h = rw cons-append refl

pub is_empty-append_right : (s t : String) → is_empty t ≡ false → is_empty (s ++ t) ≡ false
is_empty-append_right String.[] t h = rw nil-append h
is_empty-append_right (String.◌∷◌ c s) t h = rw cons-append refl
