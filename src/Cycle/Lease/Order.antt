-- ===== src/Cycle/Lease/Order.antt =====
-- The order in which due cycles are taken is a total order.
use cai_central_de_atendimen.Base.{arith}
use cai_central_de_atendimen.Base.Tables.{IsOrder}
use cai_central_de_atendimen.Cycle.Lease.{before}

pub before-IsOrder : IsOrder before
unfolding before
before-IsOrder = record { total = λ x y h. ground arith; trans = λ x y z h k. ground arith }
