-- ===== src/Claims/Scripts/Renew/Laws.antt =====
-- The bounds on a renewed claim, and what claims-renew.lua of src/mcp-server/lua stores of it.
use gptqueue.Prelude.{
  ℕ, ◌+◌, ◌*◌, ◌≤◌, ◌<◌, String, true, Option, none, some, ◌≡◌, refl, leb, str_eq_refl, arith,
  Bool-cases, inl, inr, lookup, ◌∙◌, ap, sym, and_iff, str_eq, if◌then◌else◌, str_eq_iff,
  lookup-put,
}
use gptqueue.Claims.Codec.{TaskClaim, claim_value, Json}
use gptqueue.Claims.State.{State, zadd_xx, zscore, has_score}
use gptqueue.Claims.State.Laws.{zscore-zadd}
use gptqueue.Claims.Scripts.Renew.{
  Renewal, renewed, expired_claim, exhausted, min_ms, renewed_at, renew_timed, renew_script,
  renew_raw, renew_decoded,
}
use gptqueue.Calendar.Text.{ms_from_iso, iso_from_ms}
use gptqueue.Claims.Scripts.{List, Bool, is_owner}

-- How a claim `c` that was renewed to the text `s` at `now` has moved.
pub record Extends (json : Json) (claim_id actor session : String) (now ttl budget : ℕ)
    (c : TaskClaim) (st st' : State) (s : String) : Type 0 where
  pub owner : (c.actor_id ≡ actor) × (c.session_id ≡ session)
  pub claimed : ℕ
  pub expires : ℕ
  pub until : ℕ
  pub claimed_at : ms_from_iso c.claimed_at ≡ some claimed
  pub expires_at : ms_from_iso c.expires_at ≡ some expires
  pub was_live : now < expires
  pub forward : now < until
  pub within_ttl : until ≤ now + ttl * 1000
  pub within_budget : until ≤ claimed + budget * 1000
  pub written : s ≡ iso_from_ms until
  pub stored :
      lookup claim_id st'.claims ≡ some (json.encode (claim_value (record c { expires_at = s })))
  pub indexed : has_score (zscore claim_id st.index) ≡ true → zscore claim_id st'.index ≡ some until
  pub kept : (st'.inbox ≡ st.inbox) × (st'.dlq ≡ st.dlq) × (st'.counters ≡ st.counters)

zscore-zadd_xx :
    (m : String) (s : ℕ) (z : List (String × ℕ))
    → has_score (zscore m z) ≡ true
    → zscore m (zadd_xx m s z) ≡ some s
unfolding zadd_xx
zscore-zadd_xx m s z h = rw h (zscore-zadd m m s z ∙ rw (str_eq_refl m) refl)

module _ (json : Json) (claim_id actor session : String) (now ttl budget : ℕ) (c : TaskClaim) where
  timed-renewed :
      (st st' : State) (s : String) (exp cl : Option ℕ)
      → renew_timed json claim_id actor session now ttl budget st (claim_value c) exp cl
        ≡ (st', renewed s)
      → (expires : ℕ) × (claimed : ℕ) × (exp ≡ some expires)
        × (cl ≡ some claimed)
        × (now < expires)
        × (now < min_ms (now + ttl * 1000) (claimed + budget * 1000))
        × (renewed_at json claim_id actor session now ttl budget st
              (claim_value c)
              (min_ms (now + ttl * 1000) (claimed + budget * 1000))
            ≡ (st', renewed s))
  timed-renewed st st' s (some expires) (some claimed) e = elim (Bool-cases (leb expires now)) [
    | inl over ↦ absurd (dead (rw over at e))
    | inr alive ↦
        elim (Bool-cases (leb (min_ms (now + ttl * 1000) (claimed + budget * 1000)) now)) [
          | inl stuck ↦ absurd (dead' (rw (alive, stuck) at e))
          | inr moves ↦
              (expires, claimed, refl, refl, ground arith, ground arith, rw (alive, moves) at e)
        ]
  ]
    where
      dead : ◌≡◌ {A = State × Renewal} (st, expired_claim) (st', renewed s) → ⊥
      dead h = ground arith

      dead' : ◌≡◌ {A = State × Renewal} (st, exhausted) (st', renewed s) → ⊥
      dead' h = ground arith
  timed-renewed st st' s none cl e = absurd (ground arith)
  timed-renewed st st' s _ none e = absurd (ground arith)

min_le_left : (a b : ℕ) → min_ms a b ≤ a
min_le_left a b = ground arith

min_le_right : (a b : ℕ) → min_ms a b ≤ b
min_le_right a b = ground arith

owned-renewed :
    (b : Bool) (x y : State × Renewal) {st st' : State} {s : String}
    → y ≡ (st, Renewal.not_owner)
    → (if b then x else y) ≡ (st', renewed s)
    → (b ≡ true) × (x ≡ (st', renewed s))
owned-renewed true x y h e = (refl, e)
owned-renewed Bool.false x y h e = absurd (ground arith)

-- A renewal that succeeds was asked for by the owner of a claim that was still live, and moves its
-- expiry to an instant after now, at most `ttl` seconds away and within the lifetime budget; the
-- stored claim and the score in the index both carry it, and no other key changes.
pub renew-Extends :
    (json : Json) (claim_id actor session : String) (now ttl budget : ℕ) (c : TaskClaim)
    (st st' : State) (s : String)
    → lookup claim_id st.claims ≡ some (json.encode (claim_value c))
    → renew_script json claim_id actor session now ttl budget st ≡ (st', renewed s)
    → Extends json claim_id actor session now ttl budget c st st' s
unfolding renew_script
renew-Extends json claim_id actor session now ttl budget c st st' s there e =
    let e1 = sym found ∙ e in
    let (own, e2) = owned-renewed (is_owner (claim_value c) actor session) _ _ refl e1 in
    let (expires, claimed, exp, cl, live, forward, last) =
      timed-renewed json claim_id actor session now ttl budget c st st' s (ms_from_iso c.expires_at)
        (ms_from_iso c.claimed_at) e2 in
    let until = min_ms (now + ttl * 1000) (claimed + budget * 1000) in
    let (a, b) = (and_iff (str_eq c.actor_id actor) (str_eq c.session_id session)).0 own in
    let is_s : s ≡ iso_from_ms until = ap (λ x. text_of x.1) (sym last) in
    record {
      owner = ((str_eq_iff _ _).0 a, (str_eq_iff _ _).0 b);
      claimed = claimed;
      expires = expires;
      until = until;
      claimed_at = cl;
      expires_at = exp;
      was_live = live;
      forward = forward;
      within_ttl = min_le_left (now + ttl * 1000) (claimed + budget * 1000);
      within_budget = min_le_right (now + ttl * 1000) (claimed + budget * 1000);
      written = is_s;
      stored =
          ap (λ x. lookup claim_id x.0.claims) (sym last)
          ∙ lookup-put claim_id claim_id _ st.claims
          ∙ rw (str_eq_refl claim_id)
              (ap (λ t. some (json.encode (claim_value (record c { expires_at = t })))) (sym is_s));
      indexed = λ h.
          ap (λ x. zscore claim_id x.0.index) (sym last) ∙ zscore-zadd_xx claim_id until st.index h;
      kept = (
        ap (λ x. x.0.inbox) (sym last),
        ap (λ x. x.0.dlq) (sym last),
        ap (λ x. x.0.counters) (sym last),
      );
    }
  where
    text_of : Renewal → String
    text_of (renewed t) = t
    text_of _ = s

    found :
        renew_raw json claim_id actor session now ttl budget st (lookup claim_id st.claims)
        ≡ renew_decoded json claim_id actor session now ttl budget st (some (claim_value c))
    found =
        ap (renew_raw json claim_id actor session now ttl budget st) there
        ∙ ap (renew_decoded json claim_id actor session now ttl budget st) (json.decode-encode c)
