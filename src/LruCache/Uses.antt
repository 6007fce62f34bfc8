-- ===== src/LruCache/Uses.antt =====
-- The answers of src/base/types/lru-cache.h to any sequence of uses.
use yscript.Prelude.{ℕ, List, [], ◌∷◌, Bool, true, false, Option, none, some, take}
use yscript.LruCache.{LruCache, put, get, erase, contain}
use yscript.LruCache.Nodes.{lookup, without}

pub data Use {ℓ} (K V : Type ℓ) : Type ℓ where
  put_of : K → V → Use K V
  get_of erase_of contain_of : K → Use K V

pub data Answer {ℓ} (V : Type ℓ) : Type ℓ where
  done : Answer V
  got : Option V → Answer V
  has : Bool → Answer V

module _ {ℓ} {K V : Type ℓ} (same : K → K → Bool) where
  unfoldable pub perform : Use K V → LruCache K V → Answer V × LruCache K V
  unfolding put get erase contain
  perform (put_of key value) c = (done, put same key value c)
  perform (get_of key) c = let (found, c') = get same key c in (got found, c')
  perform (erase_of key) c = (done, erase same key c)
  perform (contain_of key) c = (has (contain same key c), c)

  unfoldable pub answers : List (Use K V) → LruCache K V → List (Answer V)
  unfolding perform
  answers [] c = []
  answers (u ∷ uses) c = let (a, c') = perform u c in a ∷ answers uses c'

  -- What a list of at most `max` pairs answers, and the list afterwards.
  abbrev pub recall : ℕ → Use K V → List (K × V) → Answer V × List (K × V)
  recall max (put_of key value) l = (done, take max ((key, value) ∷ without same l key))
  recall max (get_of key) l = elim (lookup same l key) [
    | none ↦ (got none, l)
    | some v ↦ (got (some v), (key, v) ∷ without same l key)
  ]
  recall max (erase_of key) l = (done, without same l key)
  recall max (contain_of key) l = elim (lookup same l key) [
    | none ↦ (has false, l)
    | some v ↦ (has true, l)
  ]

  abbrev pub recalled : ℕ → List (Use K V) → List (K × V) → List (Answer V)
  recalled max [] l = []
  recalled max (u ∷ uses) l = let (a, l') = recall max u l in a ∷ recalled max uses l'
