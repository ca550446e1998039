-- ===== src/Kernel/AuditLog.antt =====
-- The audit log: its events are numbered without gaps and belong to their Mission, and no call
-- changes or removes one.
use pantheon_legion.Base.{
  text_eq, ℕ, ◌+◌, ◌≡◌, sym, String, some, List, [], ◌∷◌, ◌++◌, arith, inl, inr, Bool-cases, ◌==◌,
  eq_iff,
}
use pantheon_legion.Base.Dict.{lookup, insert, lookup-insert}
use pantheon_legion.Base.Lists.{length, StartsWith, StartsWith-refl, StartsWith-snoc}
use pantheon_legion.Kernel.Types.{AuditEvent}
use pantheon_legion.Kernel.State.{World, Kernel}
use pantheon_legion.Kernel.Stable.{Stable}
use pantheon_legion.Kernel.Run.{Call, after_all, after_all-stable}

-- The events of one Mission: numbered from `n + 1` on, one by one.
abbrev pub IsNumbered : String → ℕ → List AuditEvent → Type 0
IsNumbered id n [] = Unit
IsNumbered id n (e ∷ es) = (e.sequence ≡ n + 1) × (e.mission_id ≡ id) × IsNumbered id (n + 1) es

IsNumbered-snoc :
    (id : String) (n : ℕ) (es : List AuditEvent) (ev : AuditEvent)
    → IsNumbered id n es
    → ev.sequence ≡ n + length es + 1
    → ev.mission_id ≡ id
    → IsNumbered id n (es ++ ev ∷ [])
IsNumbered-snoc id n [] ev h s o = (omega (arith, s), o, tt)
IsNumbered-snoc id n (e ∷ es) ev h s o =
    (h.0, h.1, IsNumbered-snoc id (n + 1) es ev h.2 (omega (arith, s)) o)

-- Every log of the state is numbered from 1.
pub record IsLogged (k : Kernel) : Type 0 where
  pub numbered :
      (id : String) (es : List AuditEvent) → lookup id k.audit ≡ some es → IsNumbered id 0 es

-- Every log of `k` is there in `k'`, perhaps with further events behind.
pub record Extends (k k' : Kernel) : Type 0 where
  pub kept :
      (id : String) (es : List AuditEvent)
      → lookup id k.audit ≡ some es
      → (es' : List AuditEvent) × (lookup id k'.audit ≡ some es') × StartsWith es es'

IsLogged-event :
    (k : Kernel) (id : String) (earlier : List AuditEvent) (ev : AuditEvent)
    → lookup id k.audit ≡ some earlier
    → ev.sequence ≡ length earlier + 1
    → ev.mission_id ≡ id
    → IsLogged k
    → IsLogged (record k { audit = insert id (earlier ++ ev ∷ []) k.audit })
IsLogged-event k id earlier ev found s o h = record {
  numbered = λ j es e. elim (Bool-cases (id == j)) [
    | inl same ↦
        let here : j ≡ id = sym ((eq_iff id j).0 same) in
        let logged : earlier ++ ev ∷ [] ≡ es =
          ground (arith, lookup-insert id j (earlier ++ ev ∷ []) k.audit, e) in
        rw (← logged, here)
          (IsNumbered-snoc id 0 earlier ev (h.numbered id earlier found) (omega (arith, s)) o)
    | inr other ↦
        h.numbered j es (ground (arith, lookup-insert id j (earlier ++ ev ∷ []) k.audit, e))
  ];
}

IsLogged-Stable : Stable IsLogged
IsLogged-Stable = record {
  quiet = record {
    drawn = λ k u c n more h. record { numbered = h.numbered };
    command = λ k r h. record { numbered = h.numbered };
    event = IsLogged-event;
  };
  memories = λ key. record { memory = λ k v h. record { numbered = h.numbered } };
  approvals = record { approval = λ k a h. record { numbered = h.numbered } };
  missions = record { mission = λ k m h. record { numbered = h.numbered } };
  effects = record { side_effect = λ k id h. record { numbered = h.numbered } };
}

module _ (k₀ : Kernel) where
  Extends-event :
      (k : Kernel) (id : String) (earlier : List AuditEvent) (ev : AuditEvent)
      → lookup id k.audit ≡ some earlier
      → ev.sequence ≡ length earlier + 1
      → ev.mission_id ≡ id
      → Extends k₀ k
      → Extends k₀ (record k { audit = insert id (earlier ++ ev ∷ []) k.audit })
  Extends-event k id earlier ev found s o h = record {
    kept = λ j es e.
        let (es', there, starts) = h.kept j es e in
        elim (Bool-cases (id == j)) [
          | inl same ↦ (
            earlier ++ ev ∷ [],
            ground (arith, lookup-insert id j (earlier ++ ev ∷ []) k.audit),
            let is : es' ≡ earlier = ground (arith, eq_iff id j, found, there, same) in
                rw is at (StartsWith-snoc es es' ev starts),
          )
          | inr other ↦
              (es', ground (arith, lookup-insert id j (earlier ++ ev ∷ []) k.audit, there), starts)
        ];
  }

  Extends-Stable : Stable (Extends k₀)
  Extends-Stable = record {
    quiet = record {
      drawn = λ k u c n more h. record { kept = h.kept };
      command = λ k r h. record { kept = h.kept };
      event = Extends-event;
    };
    memories = λ key. record { memory = λ k v h. record { kept = h.kept } };
    approvals = record { approval = λ k a h. record { kept = h.kept } };
    missions = record { mission = λ k m h. record { kept = h.kept } };
    effects = record { side_effect = λ k id h. record { kept = h.kept } };
  }

-- Whatever calls but `create_mission` are made on a state whose audit logs are numbered 1, 2, 3, …
-- with events of their own Mission only, in whatever order and whether they return or raise, every
-- audit log of the state stays numbered 1, 2, 3, … without a gap, with events of its own Mission only.
pub after_all-IsLogged :
    (w : World) (cs : List Call) (k : Kernel) → IsLogged k → IsLogged (after_all w cs k)
after_all-IsLogged w cs k h = after_all-stable IsLogged-Stable w cs k h

-- Whatever calls but `create_mission` are made, the log of each Mission begins with the log that it had before: no
-- event is changed, reordered or removed.
pub after_all-Extends : (w : World) (cs : List Call) (k : Kernel) → Extends k (after_all w cs k)
after_all-Extends w cs k =
    after_all-stable (Extends-Stable k) w cs k
      (record { kept = λ id es e. (es, e, StartsWith-refl es) })
