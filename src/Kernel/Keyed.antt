-- ===== src/Kernel/Keyed.antt =====
-- Every Mission is stored under its own id.
use pantheon_legion.Base.{text_eq, ◌≡◌, String, some, eq_iff, arith, List}
use pantheon_legion.Base.Dict.{lookup, insert, lookup-insert}
use pantheon_legion.Kernel.Types.{Mission}
use pantheon_legion.Kernel.State.{World, Kernel}
use pantheon_legion.Kernel.Stable.{Stable}
use pantheon_legion.Kernel.Run.{Call, after_all, after_all-stable}

pub record IsKeyed (k : Kernel) : Type 0 where
  pub keyed : (id : String) (m : Mission) → lookup id k.missions ≡ some m → m.id ≡ id

IsKeyed-insert :
    (k : Kernel) (m : Mission)
    → IsKeyed k
    → IsKeyed (record k { missions = insert m.id m k.missions })
IsKeyed-insert k m h = record {
  keyed = λ id n found.
      ground (arith, lookup-insert m.id id m k.missions, eq_iff m.id id, h.keyed id n, found);
}

IsKeyed-Stable : Stable IsKeyed
IsKeyed-Stable = record {
  quiet = record {
    drawn = λ k u c n more h. record { keyed = h.keyed };
    command = λ k r h. record { keyed = h.keyed };
    event = λ k id earlier ev found s o h. record { keyed = h.keyed };
  };
  memories = λ key. record { memory = λ k v h. record { keyed = h.keyed } };
  approvals = record { approval = λ k a h. record { keyed = h.keyed } };
  missions = record { mission = IsKeyed-insert };
  effects = record { side_effect = λ k id h. record { keyed = h.keyed } };
}

-- Whatever calls but `create_mission` are made on a state in which every Mission is stored under its
-- own id, every Mission is still stored under its own id.
pub after_all-IsKeyed :
    (w : World) (cs : List Call) (k : Kernel) → IsKeyed k → IsKeyed (after_all w cs k)
after_all-IsKeyed w cs k h = after_all-stable IsKeyed-Stable w cs k h
