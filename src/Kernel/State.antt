-- ===== src/Kernel/State.antt =====
-- The state of `LegionKernel`, what it takes from outside, and methods as actions on the state.
-- What was written before a raise stays written, so the state comes back beside the error too.
use pantheon_legion.Base.{
  ℕ, ◌+◌, ◌≡◌, String, Bool, true, Option, none, some, List, [], ◌==◌, if◌then◌else◌, Eq, text_eq,
  ◌&&◌, eq_iff, arith,
}
use pantheon_legion.Base.Dict.{Dict, lookup, insert}
use pantheon_legion.Base.Json.{Value}
use pantheon_legion.Base.Text.{is_empty}
use pantheon_legion.Kernel.Types.{Mission, Approval, AuditEvent, CommandResult}

-- What the kernel does not implement. `uuid n` is the n-th text that `uuid4` gives, `now n` the
-- n-th reading of `self.clock` and `wall n` that of `_now`; `sha256_json` is the digest of the
-- printed document, and `plus_minutes` adds minutes to an ISO 8601 text.
pub record World : Type 0 where
  pub uuid : ℕ → String
  pub now : ℕ → String
  pub wall : ℕ → String
  pub sha256_json : Value → String
  pub plus_minutes : ℕ → String → String

-- The dicts of `LegionKernel`, and how often each source of texts was read.
pub record Kernel : Type 0 where
  pub missions : Dict String Mission
  pub approvals : Dict String Approval
  pub audit : Dict String (List AuditEvent)
  pub commands : Dict String CommandResult
  pub idempotency : Dict (String × String) (Value × CommandResult)
  pub side_effects : Dict String ℕ
  pub uuids : ℕ
  pub clocks : ℕ
  pub walls : ℕ

-- `LegionKernel.__init__`
abbrev pub empty : Kernel
empty = record {
  missions = [];
  approvals = [];
  audit = [];
  commands = [];
  idempotency = [];
  side_effects = [];
  uuids = 0;
  clocks = 0;
  walls = 0;
}

-- `(mission_id, idempotency_key)` as a key
abbrev pair_beq : String × String → String × String → Bool
pair_beq p q = p.0 == q.0 && p.1 == q.1

pub pair_beq_iff :
    (p q : String × String) → (pair_beq p q ≡ true → p ≡ q) × (p ≡ q → pair_beq p q ≡ true)
pair_beq_iff (a, b) (c, d) =
    (ground (arith, eq_iff a c, eq_iff b d), λ h. ground (arith, eq_iff a c, eq_iff b d))

instance abbrev pub pair_eq : Eq (String × String)
pair_eq = record { same = pair_beq; same_iff = pair_beq_iff }

pub data Raised : Type 0 where
  key_error authorization_error value_error type_error worker_killed : String → Raised

pub data Result {ℓ} (A : Type ℓ) : Type ℓ where
  ok : A → Result A
  raised : Raised → Result A

abbrev pub Exec : Type 0 → Type 0
Exec A = Kernel → Result A × Kernel

module _ {A : Type 0} where
  abbrev pub pure : A → Exec A
  pure a k = (ok a, k)

  abbrev pub raise : Raised → Exec A
  raise e k = (raised e, k)

  abbrev pub gets : (Kernel → A) → Exec A
  gets f k = (ok (f k), k)

  -- A missing key raises.
  abbrev pub or_raise : Option A → Raised → Exec A
  or_raise none e = raise e
  or_raise (some a) e = pure a

module _ {A B : Type 0} where
  abbrev pub continue : Result A → (A → Exec B) → Exec B
  continue (ok a) f k = f a k
  continue (raised e) f k = (raised e, k)

  infixl 5 ◌>>=◌ ◌>>◌
  unfoldable pub ◌>>=◌ : Exec A → (A → Exec B) → Exec B
  ◌>>=◌ m f k = let (r, k') = m k in continue r f k'

  abbrev pub ◌>>◌ : Exec A → Exec B → Exec B
  m >> n = m >>= λ _. n

abbrev pub modify : (Kernel → Kernel) → Exec (Unit {0})
modify f k = (ok tt, f k)

module _ (w : World) where
  -- `str(uuid4())`
  unfoldable pub uuid4 : Exec String
  uuid4 k = (ok (w.uuid k.uuids), record k { uuids = k.uuids + 1 })

  -- `self.clock()`
  unfoldable pub clock : Exec String
  clock k = (ok (w.now k.clocks), record k { clocks = k.clocks + 1 })

  -- `_now()`
  unfoldable pub wall_now : Exec String
  wall_now k = (ok (w.wall k.walls), record k { walls = k.walls + 1 })

  -- `given or str(uuid4())`
  unfoldable pub or_uuid : Option String → Exec String
  unfolding uuid4
  or_uuid none = uuid4
  or_uuid (some s) = if is_empty s then uuid4 else pure s

-- `self._mission(mission_id)`. The Mission that comes back is the state's own object: what is
-- changed of it is written back by `put_mission`.
unfoldable pub get_mission : String → Exec Mission
get_mission id k = or_raise (lookup id k.missions) (key_error id) k

-- In the source the object is changed in place. It stands under its own id, which no code assigns.
unfoldable pub put_mission : Mission → Exec (Unit {0})
put_mission m = modify (λ k. record k { missions = insert m.id m k.missions })

unfoldable pub put_approval : Approval → Exec (Unit {0})
put_approval a = modify (λ k. record k { approvals = insert a.id a k.approvals })

unfoldable pub put_command : CommandResult → Exec (Unit {0})
put_command r = modify (λ k. record k { commands = insert r.command_id r k.commands })

unfoldable pub put_side_effect : String → Exec (Unit {0})
put_side_effect id = modify (λ k. record k { side_effects = insert id 1 k.side_effects })
