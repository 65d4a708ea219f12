-- ===== src/Custody/Store/Status/Sound.antt =====
-- `status` of src/core/custody-store.ts, of one worktree and of all, and the texts in the hash.
use gptqueue.Prelude.{
  remove, ℕ, ◌+◌, String, Bool, true, false, Option, none, some, List, [], ◌∷◌, ◌≡◌, refl, ap, ◌∙◌,
  if◌then◌else◌, lookup, arith,
}
use gptqueue.Outcome.{Outcome, ok, err, throws}
use gptqueue.Json.{JsonCodec}
use gptqueue.Claims.Codec.{Clock}
use gptqueue.Custody.Model.{CustodyRecord}
use gptqueue.Custody.Store.Laws.{IsSound, AreHonest, read-IsStored, lazy_expire-IsExpired}
use gptqueue.Custody.Store.Read.Laws.{IsStored}
use gptqueue.Custody.Store.{Store, read_record}
use gptqueue.Custody.Store.Status.{status_read}
use gptqueue.Prelude.{All}
use gptqueue.Custody.Store.{custody_value}
use gptqueue.Custody.Store.Status.{hgetall, remove, status_all}
use gptqueue.Custody.Store.{StoreCode, str_eq}
use gptqueue.Prelude.{str_eq_iff}
use gptqueue.Custody.Store.Status.{listed}
use gptqueue.Prelude.{str_eq_refl}
use gptqueue.Custody.Store.{parse_stored}
use gptqueue.Custody.Store.Read.Laws.{custody_value-IsJson}
use gptqueue.Custody.Store.Read.Laws.{parse-custody_value}
use gptqueue.Custody.Store.{lazy_expire}

module _ (json : JsonCodec) (clock : Clock) (others : ℕ → Store → Store) where
  -- What HGETALL answers of a sound hash.
  abbrev pub EntryIsSound : String × String → Type 0
  EntryIsSound (path, raw) =
      (r : CustodyRecord) × IsStored r
      × (r.worktree.worktree_path ≡ path)
      × (raw ≡ json.encode (custody_value r))

  remove-All :
      (P Q : String × String → Type 0) (k : String) (m : Store)
      → ((j v : String) → str_eq j k ≡ false → P (j, v) → Q (j, v))
      → All P m
      → All Q (remove k m)
  unfolding remove
  remove-All P Q k [] f h = tt
  remove-All P Q k ((j, v) ∷ m) f (h, hs) = either (str_eq j k) refl (remove-All P Q k m f hs)
    where
      either :
          (b : Bool)
          → str_eq j k ≡ b
          → All Q (remove k m)
          → All Q (if b then remove k m else (j, v) ∷ remove k m)
      either true e rest = rest
      either false e rest = (f j v e h, rest)

  hgetall-lookup :
      (m : Store)
      → All (λ (e : String × String). lookup e.0 m ≡ some e.1) (hgetall json clock others m)
  unfolding hgetall lookup
  hgetall-lookup [] = tt
  hgetall-lookup ((k, v) ∷ m) = (
    ap (λ b. if b then some v else lookup k m) (str_eq_refl k),
    remove-All (λ e. lookup e.0 m ≡ some e.1)
        (λ e. (if str_eq k e.0 then some v else lookup e.0 m) ≡ some e.1) k
        (hgetall json clock others m)
        (λ j w other there. ap (λ b. if b then some v else lookup j m) (flipped k j other) ∙ there)
        (hgetall-lookup m),
  )
    where
      flipped : (k j : String) → str_eq j k ≡ false → str_eq k j ≡ false
      flipped k j e = ground (arith, str_eq_iff k j, str_eq_iff j k)

  pub entries-IsSound :
      (st : Store) → IsSound json st → All EntryIsSound (hgetall json clock others st)
  entries-IsSound st s = each (hgetall json clock others st) (hgetall-lookup st)
    where
      each :
          (es : List (String × String))
          → All (λ (e : String × String). lookup e.0 st ≡ some e.1) es
          → All EntryIsSound es
      each [] h = tt
      each ((path, raw) ∷ es) (h, hs) = (s.entry path raw h, each es hs)

module _ (json : JsonCodec) (clock : Clock) (others : ℕ → Store → Store)
    (honest : AreHonest json others) where
  pub status-IsSound :
      (path now : String) (o : Option (Option CustodyRecord)) (st : Store)
      → IsSound json st
      → read_record json clock others path st ≡ o
      → IsSound json (status_read json clock others now o st).0
  status-IsSound path now none st s e = s
  status-IsSound path now (some none) st s e = s
  status-IsSound path now (some (some r)) st s e =
      let (stored, at_path, there) = read-IsStored json clock others honest path st r s e in
      (lazy_expire-IsExpired json clock others honest 1 r now st s stored).0

  pub status_all-IsSound :
      (n : ℕ) (now : String) (es : List (String × String)) (st : Store)
      → All (EntryIsSound json clock others) es
      → IsSound json st
      → IsSound json (status_all json clock others n now es st).0
  unfolding status_all
  status_all-IsSound n now [] st h s = s
  status_all-IsSound n now ((path, raw) ∷ es) st ((r, stored, at_path, text), hs) s =
      rw (read, status_all)
        (rest (λ t k. status_all-IsSound (n + 1) now es t hs k)
          (lazy_expire json clock others n r now st)
          (lazy_expire-IsExpired json clock others honest n r now st s stored).0)
    where
      store_listed :
          (x : CustodyRecord) (p : Store × Outcome StoreCode (List CustodyRecord))
          → IsSound json p.0
          → IsSound json (listed json clock others x p).0
      store_listed x (t, ok rs) k = k
      store_listed x (t, err e) k = k
      store_listed x (t, throws) k = k

      rest :
          ((t : Store)
            → IsSound json t
            → IsSound json (status_all json clock others (n + 1) now es t).0)
          → (p : Store × CustodyRecord) → IsSound json p.0
          → IsSound json
              (listed json clock others p.1 (status_all json clock others (n + 1) now es p.0)).0
      rest again (t, x) k =
          store_listed x (status_all json clock others (n + 1) now es t) (again t k)

      read : parse_stored (json.decode raw) ≡ some r
      read =
          ap (λ t. parse_stored (json.decode t)) text
          ∙ ap parse_stored (json.decode-encode (custody_value r) (custody_value-IsJson r))
          ∙ parse-custody_value r stored
