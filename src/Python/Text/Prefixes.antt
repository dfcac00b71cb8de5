-- ===== src/Python/Text/Prefixes.antt =====
-- A text behind a prefix.
use Prim.Native.String.{◌++◌ as append}
use text.Mathlib.TextLemmas.{nil-append, cons-append}
use enterprise_multi_agent_s.Prelude.{
  String, ◌≡◌, false, ◌&&◌, none, some, ◌==◌, eq_iff, arith, Bool-cases, inl, inr,
}
use enterprise_multi_agent_s.Python.Text.{after_prefix, is_ascii}

pub after_prefix-append : (p s : String) → after_prefix p (append p s) ≡ some s
unfolding after_prefix
after_prefix-append String.[] s = rw nil-append
after_prefix-append (String.◌∷◌ c p) s = rw cons-append (ground (arith, after_prefix-append p s))

pub is_ascii-append : (p s : String) → is_ascii (append p s) ≡ (is_ascii p && is_ascii s)
unfolding is_ascii
is_ascii-append String.[] s = rw nil-append
is_ascii-append (String.◌∷◌ c p) s = rw cons-append (ground (arith, is_ascii-append p s))

-- A text with a prefix differs from a text without it.
pub append-ne : (p s t : String) → after_prefix p t ≡ none → (append p s == t) ≡ false
append-ne p s t h = elim (Bool-cases (append p s == t)) [
  | inl e ↦ ground (arith, after_prefix-append p s, eq_iff (append p s) t)
  | inr e ↦ e
]
