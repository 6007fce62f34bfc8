-- ===== src/Compiler/Names.antt =====
-- Names: the local that a name means (`resolveLocal` of src/compiler/parser.cc).
use yscript.Prelude.{
  ℕ, zero, suc, ◌≤◌, ◌≡◌, ◌≢◌, inl, inr, refl, ap, List, [], ◌∷◌, ◌++◌, true, Option, none, some,
  arith, ◌==◌, length, length-take, get_elem?, Bool-cases, Option-cases,
}
use yscript.Prelude.Bytes.{codes, bytes_eq_refl, bytes_eq→eq}
use yscript.Scanner.{Token}
use yscript.Compiler.{Local, State}
use yscript.Compiler.Emit.{text_of, error, error_at}
use yscript.Compiler.Scope.{identifiers_equal, resolve_local}

-- The bytes of the token are there.
abbrev pub IsWhole : Token → Type 0
IsWhole t = t.length ≤ length t.start

length-text_of : (t : Token) → IsWhole t → length (text_of t) ≡ t.length
length-text_of t w = omega (arith, length-take t.length t.start)

-- `identifiersEqual` of two tokens is equality of their texts.
module _ (a b : Token) where
  identifiers_equal→eq : identifiers_equal a b ≡ true → text_of a ≡ text_of b
  unfolding identifiers_equal
  identifiers_equal→eq h = bytes_eq→eq (text_of a) (text_of b) (ground arith)

  eq→identifiers_equal :
      IsWhole a → IsWhole b → text_of a ≡ text_of b → identifiers_equal a b ≡ true
  unfolding identifiers_equal
  eq→identifiers_equal v w e =
      let size : (a.length == b.length) ≡ true =
        ground (arith, ap length e, length-text_of a v, length-text_of b w) in
      rw (size, e) (bytes_eq_refl (text_of b))

-- No local of the list has the name.
abbrev pub LacksName : List Local → Token → Type 0
LacksName locals name =
    (j : ℕ) (l : Local) → get_elem? locals j ≡ some l → text_of name ≢ text_of l.name

-- The innermost of the locals, the last one first, that has the name: none of the `newer` ones has
-- it, and the index counts the `older` ones.
pub record Innermost (locals : List Local) (name : Token) (i : ℕ) : Type 0 where
  pub newer : List Local
  pub found : Local
  pub older : List Local
  pub split : locals ≡ newer ++ found ∷ older
  pub index : i ≡ length older
  pub same : text_of name ≡ text_of found.name
  pub first : LacksName newer name

-- What `resolveLocal` answers, and the state then.
pub data Resolved (locals : List Local) (name : Token) (s : State) : Option ℕ → State → Type 0 where
  known :
      {i : ℕ}
      → (m : Innermost locals name i) → m.found.depth ≢ none
      → Resolved locals name s (some i) s
  unset :
      {i : ℕ} {s' : State}
      → (m : Innermost locals name i) → m.found.depth ≡ none
      → s' ≡ error_at s.previous (codes "Can't read local variable in its own initializer.") s
      → Resolved locals name s (some i) s'
  unknown : LacksName locals name → Resolved locals name s none s

module _ (name : Token) (s : State) (l : Local) (locals : List Local)
    (ne : text_of name ≢ text_of l.name) where
  LacksName-cons : (ls : List Local) → LacksName ls name → LacksName (l ∷ ls) name
  LacksName-cons ls h zero k e = let e' : l ≡ k = cc e in rw (← e') ne
  LacksName-cons ls h (suc j) k e = h j k e

  Innermost-cons : {i : ℕ} → Innermost locals name i → Innermost (l ∷ locals) name i
  Innermost-cons m = record {
    newer = l ∷ m.newer;
    found = m.found;
    older = m.older;
    split = ap (λ ls. l ∷ ls) m.split;
    index = m.index;
    same = m.same;
    first = LacksName-cons m.newer m.first;
  }

  Resolved-cons :
      {r : Option ℕ} {s' : State} → Resolved locals name s r s' → Resolved (l ∷ locals) name s r s'
  unfolding Innermost-cons
  Resolved-cons (known m d) = known (Innermost-cons m) d
  Resolved-cons (unset m d e) = unset (Innermost-cons m) d e
  Resolved-cons (unknown h) = unknown (LacksName-cons locals h)

-- `resolveLocal` ends with the index of the innermost local that has the text of the name, with an
-- error if that local is being initialized, or says that no local has it, and then changes nothing.
pub resolve_local-Resolved :
    (locals : List Local) (name : Token) (s : State)
    → IsWhole name
    → ((j : ℕ) (l : Local) → get_elem? locals j ≡ some l → IsWhole l.name)
    → (r : Option ℕ) × (s' : State) × (resolve_local locals name s ≡ some (r, s'))
      × Resolved locals name s r s'
unfolding resolve_local error
resolve_local-Resolved [] name s v w = (none, s, refl, unknown (λ j l e. cc e))
resolve_local-Resolved (l ∷ rest) name s v w = elim (Bool-cases (identifiers_equal name l.name)) [
  | inl e ↦
      let same = identifiers_equal→eq name l.name e in
      let here : Innermost (l ∷ rest) name (length rest) = record {
        newer = [];
        found = l;
        older = rest;
        split = refl;
        index = refl;
        same = same;
        first = λ j k e. cc e;
      } in
      elim (Option-cases l.depth) [
        | inl d ↦ (
          some (length rest),
          error_at s.previous (codes "Can't read local variable in its own initializer.") s,
          rw (e, d),
          unset here d refl,
        )
        | inr (n, d) ↦ (some (length rest), s, rw (e, d), known here (λ d'. cc (d, d')))
      ]
  | inr n ↦
      let ne : text_of name ≢ text_of l.name =
        λ same. cc (n, eq→identifiers_equal name l.name v (w 0 l refl) same) in
      let (r, s', run, k) = resolve_local-Resolved rest name s v (λ j. w (suc j)) in
      (r, s', rw n run, Resolved-cons name s l rest ne k)
]
