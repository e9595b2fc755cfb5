-- ===== src/Rules/Syntax.antt =====
-- The comment syntaxes of src/queue/rules/comment-span.ts and the one of a file's name. `lower` is
-- String.prototype.toLowerCase.
use critiq_be.Prelude.{
  ℕ, Bool, true, false, ◌||◌, Option, none, some, List, [], ◌∷◌, Text, text_eq, nat_eq, codes, anyb,
  starts_with, if◌then◌else◌,
}

pub data HashComments : Type 0 where
  anywhere after_space : HashComments

pub record CommentSyntax : Type 0 where
  pub line : List Text
  pub block : List (Text × Text)
  pub hash : Option HashComments
  pub docstring : Bool
  pub quotes : Bool

abbrev pub c_block : Text × Text
c_block = (codes "/*", codes "*/")

abbrev pub slash : CommentSyntax
slash = record {
  line = codes "//" ∷ [];
  block = c_block ∷ [];
  hash = none;
  docstring = false;
  quotes = true;
}

abbrev pub hash_anywhere : CommentSyntax
hash_anywhere = record {
  line = [];
  block = [];
  hash = some anywhere;
  docstring = false;
  quotes = true;
}

abbrev pub python : CommentSyntax
python = record hash_anywhere { docstring = true }

abbrev pub hash_after_space : CommentSyntax
hash_after_space = record hash_anywhere { hash = some after_space }

abbrev pub sql : CommentSyntax
sql = record {
  line = codes "--" ∷ [];
  block = c_block ∷ [];
  hash = none;
  docstring = false;
  quotes = true;
}

abbrev pub dash : CommentSyntax
dash = record sql { block = [] }

abbrev pub markup : CommentSyntax
markup = record {
  line = [];
  block = (codes "<!--", codes "-->") ∷ [];
  hash = none;
  docstring = false;
  quotes = false;
}

abbrev pub css : CommentSyntax
css = record { line = []; block = c_block ∷ []; hash = none; docstring = false; quotes = true }

abbrev pub registered : List (CommentSyntax × List Text)
registered =
    (
      slash,
      codes "js"
          ∷ codes "ts"
          ∷ codes "jsx"
          ∷ codes "tsx"
          ∷ codes "mjs"
          ∷ codes "cjs"
          ∷ codes "go"
          ∷ codes "java"
          ∷ codes "kt"
          ∷ codes "php"
          ∷ codes "c"
          ∷ codes "h"
          ∷ codes "cpp"
          ∷ codes "cc"
          ∷ codes "hpp"
          ∷ codes "cs"
          ∷ codes "swift"
          ∷ codes "rs"
          ∷ codes "scss"
          ∷ [],
    )
    ∷ (python, codes "py" ∷ [])
    ∷ (hash_anywhere, codes "rb" ∷ codes "r" ∷ codes "pl" ∷ [])
    ∷ (
      hash_after_space,
      codes "sh"
          ∷ codes "bash"
          ∷ codes "zsh"
          ∷ codes "yaml"
          ∷ codes "yml"
          ∷ codes "toml"
          ∷ codes "env"
          ∷ codes "ini"
          ∷ codes "cfg"
          ∷ codes "conf"
          ∷ [],
    )
    ∷ (sql, codes "sql" ∷ [])
    ∷ (dash, codes "lua" ∷ codes "hs" ∷ [])
    ∷ (
      markup,
      codes "html" ∷ codes "htm" ∷ codes "xml" ∷ codes "vue" ∷ codes "svelte" ∷ codes "md" ∷ [],
    )
    ∷ (css, codes "css" ∷ [])
    ∷ []

-- What indexing the plain object `BY_EXTENSION` gives: a syntax, undefined, or a property that the
-- object inherits, which is no syntax.
pub data Lookup : Type 0 where
  known : CommentSyntax → Lookup
  unknown inherited : Lookup

-- The properties of Object.prototype whose names have no capital letter.
abbrev pub is_inherited : Text → Bool
is_inherited name = text_eq name (codes "constructor") || text_eq name (codes "__proto__")

unfoldable pub find_registered : List (CommentSyntax × List Text) → Text → Lookup
unfolding anyb
find_registered [] extension = if is_inherited extension then inherited else unknown
find_registered ((syntax, extensions) ∷ rest) extension =
    let later = find_registered rest extension in
    if anyb (λ e. text_eq e extension) extensions then known syntax else later

-- `s.split(c).pop()`: what follows the last `c`, or all of it.
unfoldable pub after_last : ℕ → Text → Text
unfolding anyb
after_last c [] = []
after_last c (x ∷ xs) =
    let tail = after_last c xs in
    if anyb (λ y. nat_eq y c) xs then tail else if nat_eq x c then xs else x ∷ xs

abbrev pub extension_of : Text → Text
extension_of basename = if anyb (λ c. nat_eq c 46) basename then after_last 46 basename else []

unfoldable pub comment_syntax_for : (lower : Text → Text) → (file_path : Text) → Lookup
unfolding find_registered after_last starts_with
comment_syntax_for lower file_path =
    let basename = lower (after_last 47 file_path) in
    if starts_with (codes "dockerfile") basename
      || (text_eq basename (codes "makefile")
          || (text_eq basename (codes ".env") || starts_with (codes ".env.") basename))
    then known hash_after_space
    else find_registered registered (extension_of basename)
