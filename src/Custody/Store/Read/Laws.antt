-- ===== src/Custody/Store/Read/Laws.antt =====
-- What is written of a custody record is read as that record.
use gptqueue.Prelude.{
  String, Bool, true, false, Option, none, some, ◌≡◌, refl, if◌then◌else◌, str_eq, is_empty_text,
  is_some, arith,
}
use gptqueue.Value.{Value, undefined, str, Fields, field_of, prop, as_str}
use gptqueue.Outcome.{ok}
use gptqueue.Json.{IsJson, HaveJson, optional, strs-AreJson}
use gptqueue.Custody.Handoff.{HandoffRecord, admit_handoff_record}
use gptqueue.Custody.Handoff.Laws.{to_value}
use gptqueue.Custody.Model.{
  CustodyState, unowned, held, released, forfeited, CustodyAcquisitionMode, initial,
  graceful_handoff, successor_takeover, CustodianIdentity, WorktreeIdentity, CustodyRecord,
}
use gptqueue.Custody.Model.Laws.{IsWellFormed, is_held, fits_state}
use gptqueue.Custody.Store.Read.{
  state_text, state_of, mode_text, mode_of, optionally, worktree_of, worktree_value, custodian_of,
  custodian_value, handoff_of, is_object, is_complete, parse_stored, mapped, custody_value,
}

-- A record that the store may hold.
pub record IsStored (r : CustodyRecord) : Type 0 where
  pub well_formed : IsWellFormed r
  pub path : is_empty_text r.worktree.worktree_path ≡ false
  pub handoff : (h : HandoffRecord) → r.handoff ≡ some h → admit_handoff_record (to_value h) ≡ ok h

abbrev or_field : Option Value → Value → Value
or_field none w = w
or_field (some v) w = v

abbrev or_undefined : Option Value → Value
or_undefined o = or_field o undefined

field_of-optional :
    (k j : String) (o : Option Value) (fs : Fields)
    → field_of k (optional j o fs)
      ≡ (if str_eq j k then or_field o (field_of k fs) else field_of k fs)
field_of-optional k j none fs = ground arith
field_of-optional k j (some v) fs = refl

state_of-text : (s : CustodyState) → state_of (str (state_text s)) ≡ some s
state_of-text unowned = refl
state_of-text held = refl
state_of-text released = refl
state_of-text forfeited = refl

mode_of-text :
    (o : Option CustodyAcquisitionMode)
    → mode_of (or_undefined (mapped (λ m. str (mode_text m)) o)) ≡ o
mode_of-text none = refl
mode_of-text (some initial) = refl
mode_of-text (some graceful_handoff) = refl
mode_of-text (some successor_takeover) = refl

as_str-mapped : (o : Option String) → as_str (or_undefined (mapped str o)) ≡ o
as_str-mapped none = refl
as_str-mapped (some s) = refl

optionally-str : (o : Option String) → optionally as_str (or_undefined (mapped str o)) ≡ some o
optionally-str none = refl
optionally-str (some s) = refl

optionally-custodian :
    (o : Option CustodianIdentity)
    → optionally custodian_of (or_undefined (mapped custodian_value o)) ≡ some o
optionally-custodian none = refl
optionally-custodian (some c) = refl

optionally-handoff :
    (o : Option HandoffRecord)
    → ((h : HandoffRecord) → o ≡ some h → admit_handoff_record (to_value h) ≡ ok h)
    → optionally handoff_of (or_undefined (mapped to_value o)) ≡ some o
optionally-handoff none adm = refl
optionally-handoff (some h) adm = rw (adm h refl) refl

worktree_of-value :
    (w : WorktreeIdentity)
    → is_empty_text w.worktree_path ≡ false
    → worktree_of (worktree_value w) ≡ some w
worktree_of-value w e = rw e refl

complete :
    (s : CustodyState) (c l : Bool) (h : Option HandoffRecord)
    → c ≡ is_held s
    → l ≡ is_held s
    → fits_state s h ≡ true
    → is_complete s c l (is_some h) ≡ true
complete s c l h e f g = ground arith

module _ (r : CustodyRecord) where
  is_object-custody_value : is_object (custody_value r) ≡ true
  unfolding custody_value
  is_object-custody_value = refl

  state_field : prop "state" (custody_value r) ≡ str (state_text r.state)
  unfolding custody_value
  state_field = refl

  worktree_field : prop "worktree" (custody_value r) ≡ worktree_value r.worktree
  unfolding custody_value
  worktree_field = refl

  custodian_field :
      prop "custodian" (custody_value r) ≡ or_undefined (mapped custodian_value r.custodian)
  unfolding custody_value
  custodian_field = simp field_of-optional

  mode_field : prop "mode" (custody_value r) ≡ or_undefined (mapped (λ m. str (mode_text m)) r.mode)
  unfolding custody_value
  mode_field = simp field_of-optional

  acquired_field : prop "acquired_at" (custody_value r) ≡ or_undefined (mapped str r.acquired_at)
  unfolding custody_value
  acquired_field = simp field_of-optional

  lease_field :
      prop "lease_expires_at" (custody_value r) ≡ or_undefined (mapped str r.lease_expires_at)
  unfolding custody_value
  lease_field = simp field_of-optional

  handoff_field : prop "handoff" (custody_value r) ≡ or_undefined (mapped to_value r.handoff)
  unfolding custody_value
  handoff_field = simp field_of-optional

-- A stored record is read back as it was written.
pub parse-custody_value :
    (r : CustodyRecord) → IsStored r → parse_stored (some (custody_value r)) ≡ some r
unfolding parse_stored
parse-custody_value r s =
    rw
      (
        is_object-custody_value r,
        state_field r,
        worktree_field r,
        custodian_field r,
        mode_field r,
        acquired_field r,
        lease_field r,
        handoff_field r,
        state_of-text r.state,
        worktree_of-value r.worktree s.path,
        optionally-custodian r.custodian,
        mode_of-text r.mode,
        as_str-mapped r.acquired_at,
        optionally-str r.lease_expires_at,
        optionally-handoff r.handoff s.handoff,
        complete r.state (is_some r.custodian) (is_some r.lease_expires_at) r.handoff
            s.well_formed.custodian s.well_formed.lease s.well_formed.by_state,
      )
      refl

HaveJson-optional :
    {A : Type 0} (k : String) (f : A → Value) (o : Option A) (fs : Fields)
    → ((a : A) → IsJson (f a))
    → HaveJson fs
    → HaveJson (optional k (mapped f o) fs)
HaveJson-optional k f none fs h hs = hs
HaveJson-optional k f (some a) fs h hs = (h a, hs)

to_value-IsJson : (h : HandoffRecord) → IsJson (to_value h)
to_value-IsJson h = (
  omega arith,
  (tt, (tt, (tt, (strs-AreJson h.untracked_inventory, (tt, (strs-AreJson h.hazards, (tt, tt))))))),
)

pub custody_value-IsJson : (r : CustodyRecord) → IsJson (custody_value r)
unfolding custody_value
custody_value-IsJson r =
    let options =
      HaveJson-optional "custodian" custodian_value r.custodian _ (λ c. (tt, (tt, tt)))
        (HaveJson-optional "mode" (λ m. str (mode_text m)) r.mode _ (λ m. tt)
          (HaveJson-optional "acquired_at" str r.acquired_at _ (λ s. tt)
            (HaveJson-optional "lease_expires_at" str r.lease_expires_at _ (λ s. tt)
              (HaveJson-optional "handoff" to_value r.handoff _ to_value-IsJson tt)))) in
    (tt, ((tt, (tt, (tt, tt))), options))
