-- ===== src/Training/Restart.antt =====
-- deepiri_zepgpu/training/integrity.py: what a FileReplayGuard has after a restart.
use deepiri_zepgpu.Base.Sorting.{sort_by}
use deepiri_zepgpu.Base.SortedDict.{All-sort_by, lookup-sort_by, All-insert}
use deepiri_zepgpu.Base.Dict.{lookup-insert, insert-NodupKeys, lookup, NodupKeys, insert}
use deepiri_zepgpu.Ledger.Json.{payload_of-to_fields, Payload, to_str, str, Conversions, Json}
use Prim.Native.String.{◌++◌ as ◌+ₛ◌}
use deepiri_zepgpu.Base.Int.{pos}
use deepiri_zepgpu.Base.{
  if◌then◌else◌, string_eq, nat_eq, ◌==◌, beq_self, eq_of_beq, beq_false, Bool-cases, length, All,
  ok, ℕ, suc, ◌+◌, String, ◌≡◌, refl, sym, ap, subst, ◌∙◌, ◌≢◌, inl, inr, Bool, true, false, not,
  Option, none, some, List, [], ◌∷◌, arith,
}
use deepiri_zepgpu.Training.Integrity.{ReplayGuard, Triple, triple_eq}
use deepiri_zepgpu.Training.Texts.{
  length-split_bar, bars-append, split_bar-none, split_bar-append, bars, split_bar,
}
use deepiri_zepgpu.Training.FileGuard.{
  by_key, save_guard, load_guard, load_entries, load_entry, key_entries, RoundTexts, three_parts,
  text_key,
}

-- `str` writes no bar, and `int` reads back what it wrote.
pub record RoundLaws (texts : RoundTexts) : Type 0 where
  pub bars-round_text : (n : ℕ) → bars (texts.round_text n) ≡ 0
  pub read_int-round_text : (n : ℕ) → texts.read_int (texts.round_text n) ≡ some (pos n)

-- Neither the run nor the worker has a bar in its id.
abbrev pub has_bar : Triple → Bool
has_bar k = not (bars k.run_id + bars k.worker_id == 0)

three_parts-none : (parts : List String) → length parts ≢ 3 → three_parts parts ≡ none
three_parts-none [] h = refl
three_parts-none (a ∷ []) h = refl
three_parts-none (a ∷ b ∷ []) h = refl
three_parts-none (a ∷ b ∷ c ∷ []) h = absurd (h refl)
three_parts-none (a ∷ b ∷ c ∷ d ∷ parts) h = refl

clean_run : (k : Triple) → has_bar k ≡ false → bars k.run_id ≡ 0
clean_run k clean = ground arith

clean_worker : (k : Triple) → has_bar k ≡ false → bars k.worker_id ≡ 0
clean_worker k clean = ground arith

module _ (texts : RoundTexts) (laws : RoundLaws texts) where
  split_bar-text_key :
      (k : Triple)
      → has_bar k ≡ false
      → split_bar (text_key texts k) ≡ k.run_id ∷ texts.round_text k.round ∷ k.worker_id ∷ []
  unfolding text_key
  split_bar-text_key k clean =
      rw
        (
          text_key,
          split_bar-append k.run_id (texts.round_text k.round +ₛ ("|" +ₛ k.worker_id))
              (clean_run k clean),
          split_bar-append (texts.round_text k.round) k.worker_id (laws.bars-round_text k.round),
          split_bar-none k.worker_id (clean_worker k clean),
        )
        refl

  bars-text_key : (k : Triple) → bars (text_key texts k) ≡ bars k.run_id + bars k.worker_id + 2
  unfolding text_key
  bars-text_key k =
      let inner = texts.round_text k.round +ₛ ("|" +ₛ k.worker_id) in
      omega (
        arith,
        bars-append k.run_id ("|" +ₛ inner),
        bars-append "|" inner,
        bars-append (texts.round_text k.round) ("|" +ₛ k.worker_id),
        bars-append "|" k.worker_id,
        laws.bars-round_text k.round,
      )

  three_parts-text_key :
      (k : Triple) → has_bar k ≡ true → three_parts (split_bar (text_key texts k)) ≡ none
  unfolding text_key
  three_parts-text_key k barred =
      three_parts-none (split_bar (text_key texts k))
        (λ e. few k barred (sym (length-split_bar (text_key texts k)) ∙ e))
    where
      few : (k : Triple) → has_bar k ≡ true → suc (bars (text_key texts k)) ≢ 3
      few k barred e = ground (arith, bars-text_key k, barred, e)

  -- Keys without a bar have a text of their own.
  text_key-ne : (j k : Triple) → has_bar k ≡ false → j ≢ k → text_key texts j ≢ text_key texts k
  text_key-ne j k clean ne same = elim (Bool-cases (has_bar j)) [
    | inl barred ↦
        let parts : three_parts (split_bar (text_key texts j))
            ≡ three_parts (split_bar (text_key texts k)) =
          ap (λ s. three_parts (split_bar s)) same in
        ground (arith, parts, three_parts-text_key j barred, split_bar-text_key k clean)
    | inr clean' ↦ ne (
        same_parts
          (sym (split_bar-text_key j clean') ∙ (ap split_bar same ∙ split_bar-text_key k clean)))
  ]
    where
      same_parts :
          (j.run_id ∷ texts.round_text j.round ∷ j.worker_id ∷ [])
            ≡ (k.run_id ∷ texts.round_text k.round ∷ k.worker_id ∷ [])
          → j ≡ k
      same_parts parts =
          let round : some (pos j.round) ≡ some (pos k.round) =
            sym (laws.read_int-round_text j.round)
            ∙ (ap texts.read_int (ground (arith, parts)) ∙ laws.read_int-round_text k.round) in
          ground (arith, parts, round)

  -- An entry that the guard wrote.
  abbrev Written : String × Json → Type 0
  Written entry = (j : Triple) × (m : String) × (entry ≡ (text_key texts j, str m))

  abbrev entry_or : Option String → Option Json → Option Json
  entry_or none o = o
  entry_or (some m) o = some (str m)

  key_entries-Written :
      (seen : ReplayGuard) (payload : Payload)
      → All Written payload
      → NodupKeys payload
      → All Written (key_entries texts seen payload) × NodupKeys (key_entries texts seen payload)
  unfolding key_entries
  key_entries-Written [] payload written nodup = (written, nodup)
  key_entries-Written ((j, m) ∷ seen) payload written nodup =
      key_entries-Written seen (insert (text_key texts j) (str m) payload)
        (All-insert Written (text_key texts j) (str m) payload (j, m, refl) written)
        (insert-NodupKeys (text_key texts j) (str m) payload nodup)

  lookup-key_entries :
      (seen : ReplayGuard) (payload : Payload) (k : Triple)
      → NodupKeys seen
      → has_bar k ≡ false
      → lookup (text_key texts k) (key_entries texts seen payload)
        ≡ entry_or (lookup k seen) (lookup (text_key texts k) payload)
  unfolding key_entries
  lookup-key_entries [] payload k nodup clean = refl
  lookup-key_entries ((j, m) ∷ seen) payload k (fresh, nodup) clean =
      lookup-key_entries seen (insert (text_key texts j) (str m) payload) k nodup clean ∙ rest
    where
      rest :
          entry_or
            (lookup k seen)
            (lookup (text_key texts k) (insert (text_key texts j) (str m) payload))
          ≡ entry_or (if j == k then some m else lookup k seen) (lookup (text_key texts k) payload)
      rest = elim (Bool-cases (j == k)) [
        | inl same ↦
            let e = eq_of_beq j k same in
            let fresh' : lookup k seen ≡ none = subst (λ i. lookup i seen ≡ none) e fresh in
            let there : (text_key texts j == text_key texts k) ≡ true =
              subst (λ i. (text_key texts j == text_key texts i) ≡ true) e
                (beq_self (text_key texts j)) in
            rw (
              same,
              fresh',
              lookup-insert (text_key texts k) (text_key texts j) (str m) payload,
              there,
            )
        | inr other ↦
            let apart =
              beq_false (text_key texts j) (text_key texts k)
                (text_key-ne j k clean (λ e. ground (arith, e, other, beq_self k))) in
            rw (other, lookup-insert (text_key texts k) (text_key texts j) (str m) payload, apart)
      ]

module _ (py : Conversions) (texts : RoundTexts) (laws : RoundLaws texts) where
  abbrev text_or : Option Json → Option String → Option String
  text_or none o = o
  text_or (some v) o = some (to_str py v)

  -- What loading an entry does to the lookups.
  load_entry-written :
      (j : Triple) (m : String) (seen : ReplayGuard)
      → load_entry py texts (text_key texts j, str m) seen
        ≡ ok (if has_bar j then seen else insert j m seen)
  unfolding load_entry
  load_entry-written j m seen = elim (Bool-cases (has_bar j)) [
    | inl barred ↦ rw (load_entry, three_parts-text_key texts laws j barred, barred)
    | inr clean ↦
        rw (
          load_entry,
          split_bar-text_key texts laws j clean,
          laws.read_int-round_text j.round,
          clean,
        )
  ]

  -- What the guard has after the entries `p` are loaded.
  abbrev Loads : Payload → ReplayGuard → Type 0
  Loads p seen =
      (seen' : ReplayGuard) × (load_entries py texts p seen ≡ ok seen')
      × ((k : Triple)
          → lookup k seen' ≡ (
              if has_bar k
              then lookup k seen
              else text_or (lookup (text_key texts k) p) (lookup k seen)))

  abbrev loaded : Triple → String → ReplayGuard → ReplayGuard
  loaded j m seen = if has_bar j then seen else insert j m seen

  lookup-loaded_other :
      (j k : Triple) (m : String) (seen : ReplayGuard)
      → (j == k) ≡ false
      → lookup k (loaded j m seen) ≡ lookup k seen
  lookup-loaded_other j k m seen other = elim (Bool-cases (has_bar j)) [
    | inl barred ↦ rw barred
    | inr clean ↦ rw (clean, lookup-insert k j m seen, other)
  ]

  lookup-loaded_self :
      (j : Triple) (m : String) (seen : ReplayGuard)
      → has_bar j ≡ false
      → lookup j (loaded j m seen) ≡ some m
  lookup-loaded_self j m seen clean = rw (clean, lookup-insert j j m seen, beq_self j)

  Loads-written :
      (j : Triple) (m : String) (p : Payload) (seen : ReplayGuard)
      → lookup (text_key texts j) p ≡ none
      → Loads p (loaded j m seen)
      → Loads ((text_key texts j, str m) ∷ p) seen
  unfolding load_entries
  Loads-written j m p seen fresh (seen', ran, found) =
      (seen', rw (load_entries, load_entry-written j m seen) ran, λ k. found k ∙ by_key k)
    where
      apart :
          (k : Triple)
          → has_bar k ≡ false
          → (j == k) ≡ false
          → (text_key texts j == text_key texts k) ≡ false
      apart k clean other =
          beq_false (text_key texts j) (text_key texts k)
            (text_key-ne texts laws j k clean (λ e. ground (arith, e, other, beq_self k)))

      by_key :
          (k : Triple)
          → (if has_bar k
              then lookup k (loaded j m seen)
              else text_or (lookup (text_key texts k) p) (lookup k (loaded j m seen)))
            ≡ (if has_bar k
                then lookup k seen
                else text_or
                    (if text_key texts j == text_key texts k
                      then some (str m)
                      else lookup (text_key texts k) p)
                    (lookup k seen))
      by_key k = elim (Bool-cases (j == k)) [
        | inl same ↦ subst at_key (eq_of_beq j k same) here
        | inr other ↦ elim (Bool-cases (has_bar k)) [
          | inl barred ↦ rw (barred, lookup-loaded_other j k m seen other)
          | inr clean ↦ rw (clean, lookup-loaded_other j k m seen other, apart k clean other)
        ]
      ]
        where
          at_key : Triple → Type 0
          at_key k =
              (if has_bar k
                then lookup k (loaded j m seen)
                else text_or (lookup (text_key texts k) p) (lookup k (loaded j m seen)))
              ≡ (if has_bar k
                  then lookup k seen
                  else text_or
                      (if text_key texts j == text_key texts k
                        then some (str m)
                        else lookup (text_key texts k) p)
                      (lookup k seen))

          here : at_key j
          here = elim (Bool-cases (has_bar j)) [
            | inl barred ↦ rw barred
            | inr clean ↦
                rw (fresh, lookup-loaded_self j m seen clean, clean, beq_self (text_key texts j))
          ]

  load_entries-Loads :
      (p : Payload) (seen : ReplayGuard) → NodupKeys p → All (Written texts laws) p → Loads p seen
  unfolding load_entries
  load_entries-Loads [] seen nodup written =
      (seen, refl, λ k. unchanged (has_bar k) (lookup k seen))
    where
      unchanged : (b : Bool) (o : Option String) → o ≡ (if b then o else o)
      unchanged true o = refl
      unchanged false o = refl
  load_entries-Loads (entry ∷ p) seen (fresh, nodup) ((j, m, same), written) =
      subst (λ e. Loads (e ∷ p) seen) (sym same)
        (Loads-written j m p seen (ap (λ (e : String × Json). lookup e.0 p) (sym same) ∙ fresh)
          (load_entries-Loads p (loaded j m seen) nodup written))

  -- After a restart from the file that the guard wrote, which is read without an error, the guard has
  -- the MAC of every triple whose run and worker have no bar in their ids, and of no other triple: those
  -- may be replayed. A dict has no key twice.
  pub load_guard-save_guard :
      (seen : ReplayGuard)
      → NodupKeys seen
      → (seen' : ReplayGuard) × (load_guard py texts (save_guard texts seen) ≡ ok seen')
        × ((k : Triple) → lookup k seen' ≡ (if has_bar k then none else lookup k seen))
  unfolding load_guard save_guard
  load_guard-save_guard seen nodup =
      let (written, distinct) = key_entries-Written texts laws seen [] tt tt in
      let (sorted, same) = lookup-sort_by by_key (key_entries texts seen []) distinct in
      let (seen', ran, found) =
        load_entries-Loads (sort_by by_key (key_entries texts seen [])) [] sorted
          (All-sort_by (Written texts laws) by_key (key_entries texts seen []) written) in
      (
        seen',
        rw (payload_of-to_fields (sort_by by_key (key_entries texts seen []))) ran,
        λ k. found k ∙ kept k (same (text_key texts k)),
      )
    where
      read_back : (o : Option String) → text_or (entry_or texts laws o none) none ≡ o
      read_back none = refl
      read_back (some m) = refl

      kept :
          (k : Triple)
          → lookup (text_key texts k) (sort_by by_key (key_entries texts seen []))
            ≡ lookup (text_key texts k) (key_entries texts seen [])
          → (if has_bar k
              then none
              else text_or
                  (lookup (text_key texts k) (sort_by by_key (key_entries texts seen [])))
                  none)
            ≡ (if has_bar k then none else lookup k seen)
      kept k same = elim (Bool-cases (has_bar k)) [
        | inl barred ↦ rw barred
        | inr clean ↦
            rw (clean, same, lookup-key_entries texts laws seen [] k nodup clean)
              (read_back (lookup k seen))
      ]
