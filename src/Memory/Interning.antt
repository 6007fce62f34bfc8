-- ===== src/Memory/Interning.antt =====
-- Interning (`copyString`, `takeString` of src/common/ysobject.cc): equal texts have one address.
use yscript.Prelude.{
  get_elem?-append_left, get_elem?-append_end, ◌<◌, ◌≡◌, ◌≢◌, ◌↔◌, refl, sym, ap, ◌∙◌, ◌⊎◌, inl,
  inr, [], ◌∷◌, ◌++◌, true, false, Option, some, arith, ◌==◌, length, length-append, get_elem?,
  Bool-cases,
}
use yscript.Prelude.Bytes.{Bytes}
use yscript.Value.{Ptr, nil, ObjString, Table}
use yscript.Table.{init_table, table_find_string, ◌>>=◌}
use yscript.Table.View.{view, view-hit}
use yscript.Table.Map.{IsValid, init_table-IsValid, Wrote, table_set-Wrote}
use yscript.Table.Strings.{Sought, known, unknown, table_find_string-Sought}
use yscript.Memory.{
  string, Memory, string_at, as_string, hash_string, allocate_object, allocate_string, copy_string,
}
use yscript.Memory.Keys.{IsKey, IsInterned, is_text-eq, eq-is_text, IsPlaced-agree, HasAt_of-view}

-- What `copyString` promises: the address of a key with the text, and that all other objects and
-- keys stay.
pub record Copied (m : Memory) (chars : Bytes) (p : Ptr) (m' : Memory) : Type 0 where
  pub interned : IsInterned m'
  pub key : IsKey m' p
  pub text : (string_at m' p).chars ≡ chars
  pub kept : (q : Ptr) → q < length m.objects → get_elem? m'.objects q ≡ get_elem? m.objects q
  pub keys : (q : Ptr) → IsKey m q → IsKey m' q

-- The memory after the allocation of a string, and before it is entered into the table.
module _ (m : Memory) (i : IsInterned m) (chars : Bytes) where
  abbrev fresh : ObjString
  fresh = record { length = length chars; chars = chars; hash = hash_string chars }

  abbrev with_fresh : Memory
  with_fresh = record m { objects = m.objects ++ string fresh ∷ [] }

  string_at-old : (q : Ptr) → q < length m.objects → string_at with_fresh q ≡ string_at m q
  unfolding string_at
  string_at-old q h = ap as_string (get_elem?-append_left m.objects (string fresh) q h)

  string_at-fresh : string_at with_fresh (length m.objects) ≡ fresh
  unfolding string_at
  string_at-fresh = ap as_string (get_elem?-append_end m.objects (string fresh))

  IsValid-with_fresh : IsValid (string_at with_fresh) m.strings
  IsValid-with_fresh = record {
    placed =
        IsPlaced-agree (string_at m) (string_at with_fresh) m.strings.entries m.strings.capacity
          (λ q j h.
            ap (λ s. s.hash) (sym (string_at-old q (i.allocated q (record { index = j; at = h })))))
          i.valid.placed;
    counted = i.valid.counted;
    loaded = i.valid.loaded;
  }

  -- After the write of the new key.
  module _ (none_there : (q : Ptr) → IsKey m q → (string_at m q).chars ≢ chars) (t : Table)
      (w : Wrote
        (string_at with_fresh)
        (view m.strings.entries)
        (length m.objects)
        (some nil)
        t) where
    abbrev after : Memory
    after = record with_fresh { strings = t }

    old-IsKey : (q : Ptr) → IsKey m q → IsKey after q
    old-IsKey q k =
        let lt = i.allocated q k in
        let ne : (length m.objects == q) ≡ false = ground arith in
        let means = w.means q in
        let (j, h) =
          HasAt_of-view t.entries q
            (rw ne at means ∙ view-hit m.strings.entries q k.index i.valid.placed.unique k.at) in
        record { index = j; at = h }

    new-IsKey : IsKey after (length m.objects)
    new-IsKey =
        let eq : (length m.objects == length m.objects) ≡ true = ground arith in
        let means = w.means (length m.objects) in
        let (j, h) = HasAt_of-view t.entries (length m.objects) (rw eq at means) in
        record { index = j; at = h }

    -- A key of the new table is the new one or an old one.
    IsKey-cases : (q : Ptr) → IsKey after q → (q ≡ length m.objects) ⊎ IsKey m q
    IsKey-cases q k = elim (Bool-cases (length m.objects == q)) [
      | inl e ↦ inl (ground arith)
      | inr n ↦
          let means = w.means q in
          let (j, h) =
            HasAt_of-view m.strings.entries q
              (sym (rw n at means) ∙ view-hit t.entries q k.index w.valid.placed.unique k.at) in
          inr (record { index = j; at = h })
    ]

    -- What holds of the fresh string and of the old ones holds of all keys.
    each_key :
        (P : Ptr → ObjString → Type 0)
        → P (length m.objects) fresh
        → ((q : Ptr) → IsKey m q → P q (string_at m q))
        → (q : Ptr) → IsKey after q
        → P q (string_at with_fresh q)
    each_key P new old q k = elim (IsKey-cases q k) [
      | inl e ↦ rw (e, string_at-fresh) new
      | inr k' ↦ rw (string_at-old q (i.allocated q k')) (old q k')
    ]

    after-IsInterned : IsInterned after
    unfolding string_at
    after-IsInterned = record {
      valid = w.valid;
      allocated =
          each_key (λ q s. q < length (with_fresh.objects))
            (omega (arith, length-append m.objects (string fresh ∷ [])))
            (λ q k. omega (arith, i.allocated q k, length-append m.objects (string fresh ∷ [])));
      sized = each_key (λ q s. s.length ≡ length s.chars) refl i.sized;
      hashed = each_key (λ q s. s.hash ≡ hash_string s.chars) refl i.hashed;
      distinct = λ p q k l.
          each_key (λ p s. s.chars ≡ (string_at with_fresh q).chars → p ≡ q)
            (each_key (λ q s. chars ≡ s.chars → length m.objects ≡ q) (λ e. refl)
              (λ q l e. absurd (none_there q l (sym e))) q l)
            (λ p k.
              each_key (λ q s. (string_at m p).chars ≡ s.chars → p ≡ q)
                (λ e. absurd (none_there p k e)) (λ q l. i.distinct p q k l) q l)
            p k;
    }

    fresh-Copied : Copied m chars (length m.objects) after
    unfolding string_at
    fresh-Copied = record {
      interned = after-IsInterned;
      key = new-IsKey;
      text = ap (λ s. s.chars) string_at-fresh;
      kept = get_elem?-append_left m.objects (string fresh);
      keys = old-IsKey;
    }

  fresh_run :
      ((q : Ptr) → IsKey m q → (string_at m q).chars ≢ chars)
      → (p : Ptr) × (m' : Memory) × (allocate_string chars (hash_string chars) m ≡ some (p, m'))
        × Copied m chars p m'
  unfolding allocate_string allocate_object
  fresh_run none_there =
      let (t, run, w) =
        table_set-Wrote (string_at with_fresh) m.strings (length m.objects) nil
          IsValid-with_fresh in
      (length m.objects, after none_there t w, rw (run, ◌>>=◌), fresh-Copied none_there t w)

known_run :
    (m : Memory) (chars : Bytes)
    → IsInterned m
    → (r : Option Ptr)
    → table_find_string (string_at m) m.strings chars (length chars) (hash_string chars) ≡ some r
    → Sought (string_at m) m.strings chars (length chars) (hash_string chars) r
    → (p : Ptr) × (m' : Memory) × (copy_string chars m ≡ some (p, m')) × Copied m chars p m'
unfolding copy_string
known_run m chars i _ run (known {k = p} j h same) =
    let key : IsKey m p = record { index = j; at = h } in
    (
      p,
      m,
      rw (run, ◌>>=◌),
      record {
        interned = i;
        key = key;
        text = is_text-eq m i chars p key same;
        kept = λ q lt. refl;
        keys = λ q k. k;
      },
    )
known_run m chars i _ run (unknown none_there) =
    let (p, m', made, c) =
      fresh_run m i chars (λ q k e. cc (none_there q k.index k.at, eq-is_text m i chars q k e)) in
    (p, m', rw (run, ◌>>=◌) made, c)

-- Where the table of strings is well formed, `copyString` ends with the address of a string with
-- the bytes that is a key of the table; the table stays well formed, with its keys, and no object
-- that was there changes.
pub copy_string-Copied :
    (m : Memory) (chars : Bytes)
    → IsInterned m
    → (p : Ptr) × (m' : Memory) × (copy_string chars m ≡ some (p, m')) × Copied m chars p m'
copy_string-Copied m chars i =
    let (r, run, sought) =
      table_find_string-Sought (string_at m) m.strings chars (length chars) (hash_string chars)
        i.valid in
    known_run m chars i r run sought

-- Two copies, one after the other, are at one address if and only if they have the same bytes.
pub copy_string-same :
    (m : Memory) (a b : Bytes)
    → IsInterned m
    → (p q : Ptr) × (m₁ m₂ : Memory) × (copy_string a m ≡ some (p, m₁))
      × (copy_string b m₁ ≡ some (q, m₂))
      × ((p ≡ q) ↔ (a ≡ b))
unfolding string_at
copy_string-same m a b i =
    let (p, m₁, run, c) = copy_string-Copied m a i in
    let (q, m₂, run', c') = copy_string-Copied m₁ b c.interned in
    let text : (string_at m₂ p).chars ≡ a =
      ap (λ o. (as_string o).chars) (c'.kept p (c.interned.allocated p c.key)) ∙ c.text in
    (
      p,
      q,
      m₁,
      m₂,
      run,
      run',
      (
        λ e. sym text ∙ ap (λ r. (string_at m₂ r).chars) e ∙ c'.text,
        λ e. c'.interned.distinct p q (c'.keys p c.key) c'.key (text ∙ e ∙ sym c'.text),
      ),
    )

-- The memory of a virtual machine that starts is well formed.
pub no_objects-IsInterned : IsInterned (record { objects = []; strings = init_table })
unfolding init_table
no_objects-IsInterned = record {
  valid = init_table-IsValid _;
  allocated = λ p k. absurd (cc (k.at));
  sized = λ p k. absurd (cc (k.at));
  hashed = λ p k. absurd (cc (k.at));
  distinct = λ p q k l e. absurd (cc (k.at));
}
