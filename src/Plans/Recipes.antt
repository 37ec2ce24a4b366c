-- ===== src/Plans/Recipes.antt =====
-- resource-plans.ts: the order in which `planEnsure` tries recipes. `JSON.stringify` is that of the
-- language, on text and on the two forms of a recipe's source.
use Prim.Native.Char.{Char, code}
use Prim.Native.String
use codexport.Base.{
  Bool, String, [], ◌∷◌, Option, none, some, ◌==◌, ℕ, zero, suc, ◌/◌, ◌%◌, nat_eq, if◌then◌else◌,
  or_else, template, nul_text, ltb, text_lt,
}
use codexport.Domain.{ToolRecipe, RecipeSource, locator, metadata, method_text}

-- The character at a place of a text, as a text.
char_text : ℕ → String → String
char_text n String.[] = ""
char_text zero (String.◌∷◌ c s) = String.◌∷◌ c String.[]
char_text (suc n) (String.◌∷◌ c s) = char_text n s

hex_digit : ℕ → String
unfolding char_text
hex_digit n = char_text n "0123456789abcdef"

-- A control character: `\\b \\t \\n \\f \\r`, or four hexadecimal digits.
control_text : ℕ → String
unfolding hex_digit template
control_text n =
    if n == 8
    then "\\b"
    else if n == 9
    then "\\t"
    else if n == 10
    then "\\n"
    else if n == 12
    then "\\f"
    else if n == 13
    then "\\r"
    else template ("\\u00" ∷ hex_digit (n / 16) ∷ hex_digit (n % 16) ∷ [])

-- One character of a JSON text. A `Char` is no surrogate.
json_char : Char → String
unfolding control_text
json_char c =
    let n = code c in
    if n == 34
    then "\\\""
    else if n == 92
    then "\\\\"
    else if ltb n 32
    then control_text n
    else String.◌∷◌ c String.[]

json_chars : String → String
unfolding json_char
json_chars String.[] = ""
json_chars (String.◌∷◌ c s) = String.◌++◌ (json_char c) (json_chars s)

-- `JSON.stringify` of a text.
unfoldable pub json_text : String → String
unfolding template json_chars
json_text s = template ("\"" ∷ json_chars s ∷ "\"" ∷ [])

-- `JSON.stringify(recipe.source)` in a template: `undefined` where there is no source.
unfoldable pub json_source : Option RecipeSource → String
unfolding template json_text
json_source none = "undefined"
json_source (some (locator l)) = json_text l
json_source (some (metadata l none)) = template ("{\"source\":" ∷ json_text l ∷ "}" ∷ [])
json_source (some (metadata l (some i))) =
    template ("{\"source\":" ∷ json_text l ∷ ",\"integrity\":" ∷ json_text i ∷ "}" ∷ [])

-- The key that recipes are sorted by.
unfoldable pub recipe_key : ToolRecipe → String
unfolding template method_text json_source
recipe_key r = template (
    method_text r.method
    ∷ nul_text
    ∷ r.package_name
    ∷ nul_text
    ∷ or_else r.version ""
    ∷ nul_text
    ∷ json_source r.source
    ∷ [])

unfoldable pub recipe_lt : ToolRecipe → ToolRecipe → Bool
unfolding recipe_key text_lt
recipe_lt l r = text_lt (recipe_key l) (recipe_key r)
