-- ===== src/Races/Reads.antt =====
-- The calls of the requests that only read.
use backend.Common.{◌≡◌, arith}
use backend.Schema.{Address, EventType}
use backend.Db.{State, ◌>>=◌, find_user}
use backend.Env.{Env}
use backend.Admin.{AdminDto, validate_transaction, require_user}

pub validate_transaction-state :
    (env : Env) (dto : AdminDto) (type : EventType) (s : State)
    → (validate_transaction env dto type s).1 ≡ s
unfolding validate_transaction
validate_transaction-state env dto type s = ground arith

pub read-state : (a : Address) (s : State) → ((find_user a >>= require_user) s).1 ≡ s
unfolding require_user
read-state a s = ground arith
