-- ===== src/CustomerLimit.antt =====
-- internal/customerlimit/customerlimit.go: throttle and refusal state of one customer credential
-- generation. The scope of a generation is an opaque key with equality, and Go's map from scopes to
-- entries a function. A method runs under the registry's mutex, so it is one step; it takes the
-- reading of `r.now()` as an argument. Retry windows are durations, so signed.
pub mod Windows
pub mod Isolation
mod Examples
use kaana.Prelude.{ℕ, Bool, true, false, Option, none, some, ◌&&◌, not, ltb, if◌then◌else◌}
use kaana.Prelude.Int.{ℤ, pos, negsuc, ltb_ℤ}
use kaana.Prelude.Assoc.{Eq}
use kaana.Prelude.Time.{Time, Duration, before, add_time, sub_time}

-- 5 * time.Second
abbrev pub default_throttle_cooldown : Duration
default_throttle_cooldown = pos 5_000_000_000

-- 15 * time.Minute
abbrev pub default_rejected_cooldown : Duration
default_rejected_cooldown = pos 900_000_000_000

-- time.Hour
abbrev pub stale_entry_age : Duration
stale_entry_age = pos 3_600_000_000_000

pub data Reason : Type 0 where
  none_given throttled rejected : Reason

pub record Refusal : Type 0 where
  pub reason : Reason
  pub retry_after : Duration

pub record Entry : Type 0 where
  pub reason : Reason
  pub probes_at : Time
  pub trial_in_flight : Bool
  pub last_seen : Time

pub record Permit (K : Type 0) : Type 0 where
  pub scope : K
  pub reported : Bool

abbrev pub no_refusal : Refusal
no_refusal = record { reason = none_given; retry_after = pos 0 }

abbrev pub Entries : Type 0 → Type 0
Entries K = K → Option Entry

-- entryFor
abbrev pub entry_for : Reason → Time → Time → Entry
entry_for reason probes_at last_seen = record {
  reason = reason;
  probes_at = probes_at;
  trial_in_flight = false;
  last_seen = last_seen;
}

abbrev pub is_stale : Time → Entry → Bool
is_stale now e =
    not e.trial_in_flight
    && (not (before now e.probes_at) && ltb_ℤ stale_entry_age (sub_time now e.last_seen))

abbrev pub fresh_or_none : Time → Option Entry → Option Entry
fresh_or_none now none = none
fresh_or_none now (some e) = if is_stale now e then none else some e

-- What NotAttributable leaves of an entry, where there is one.
abbrev pub released : Time → Option Entry → Option Entry
released now none = none
released now (some e) = some (record e { trial_in_flight = false; last_seen = now })

-- The window that Throttled opens.
abbrev pub throttle_window : Duration → Duration
throttle_window retry_after =
    if ltb_ℤ (pos 0) retry_after then retry_after else default_throttle_cooldown

module _ {K : Type 0} ⦃eq : Eq K⦄ where
  -- m[k] = v for `some v`, delete(m, k) for `none`.
  abbrev pub update : Entries K → K → Option Entry → Entries K
  update m k v j = if eq.beq k j then v else m j

  -- removeStaleLocked: the loop deletes every stale entry.
  unfoldable pub remove_stale : Time → Entries K → Entries K
  remove_stale now m j = fresh_or_none now (m j)

  abbrev pub granted : K → Option (Permit K) × Refusal
  granted scope = (some (record { scope = scope; reported = false }), no_refusal)

  -- Admit after the stale entries are gone, by what the map holds for the scope.
  pub admit_known : Option Entry → K → Time → Entries K → Entries K × (Option (Permit K) × Refusal)
  admit_known none scope now m = (m, granted scope)
  admit_known (some e) scope now m =
      let seen = record e { last_seen = now } in
      if before now e.probes_at
      then (
        update m scope (some seen),
        (none, record { reason = e.reason; retry_after = sub_time e.probes_at now }),
      )
      else if e.trial_in_flight
      then (update m scope (some seen), (none, record { reason = e.reason; retry_after = pos 0 }))
      else (update m scope (some (record seen { trial_in_flight = true })), granted scope)

  unfoldable pub admit : K → Time → Entries K → Entries K × (Option (Permit K) × Refusal)
  unfolding remove_stale admit_known
  admit scope now m = let live = remove_stale now m in admit_known (live scope) scope now live

  -- The body of `report`, by its reason; `success` is the first case.
  pub settle : Bool → Reason → Duration → K → Time → Entries K → Entries K
  settle true reason cooldown scope now m = update m scope none
  settle false none_given cooldown scope now m = update m scope (released now (m scope))
  settle false reason cooldown scope now m =
      update m scope (some (entry_for reason (add_time now cooldown) now))

  pub report :
      Option (Permit K)
      → Reason
      → Duration
      → Bool
      → Time
      → Entries K
      → Option (Permit K) × Entries K
  unfolding settle
  report none reason cooldown success now m = (none, m)
  report (some p) reason cooldown success now m =
      if p.reported
      then (some p, m)
      else (some (record p { reported = true }), settle success reason cooldown p.scope now m)

  unfoldable pub succeeded : Option (Permit K) → Time → Entries K → Option (Permit K) × Entries K
  unfolding report
  succeeded p = report p none_given (pos 0) true

  unfoldable pub reject : Option (Permit K) → Time → Entries K → Option (Permit K) × Entries K
  unfolding report
  reject p = report p rejected default_rejected_cooldown false

  unfoldable pub throttle :
      Option (Permit K) → Duration → Time → Entries K → Option (Permit K) × Entries K
  unfolding report
  throttle p retry_after = report p throttled (throttle_window retry_after) false

  unfoldable pub not_attributable :
      Option (Permit K) → Time → Entries K → Option (Permit K) × Entries K
  unfolding report
  not_attributable p = report p none_given (pos 0) false
