-- ===== src/Status/Codes.antt =====
-- The enum `Code` of src/status.rs.
use trillium_grpc.Prelude.{ℕ, ◌≤◌, ◌≡◌, Option, none, some, arith, ◌==◌, if◌then◌else◌, ◌↔◌, subst}

pub data Code : Type 0 where
  ok cancelled unknown invalid_argument deadline_exceeded not_found already_exists : Code
  permission_denied resource_exhausted failed_precondition aborted out_of_range : Code
  unimplemented internal unavailable data_loss unauthenticated : Code

-- `Code::from_u8`.
unfoldable pub from_u8 : ℕ → Option Code
from_u8 n =
    if n == 0
    then some ok
    else if n == 1
    then some cancelled
    else if n == 2
    then some unknown
    else if n == 3
    then some invalid_argument
    else if n == 4
    then some deadline_exceeded
    else if n == 5
    then some not_found
    else if n == 6
    then some already_exists
    else if n == 7
    then some permission_denied
    else if n == 8
    then some resource_exhausted
    else if n == 9
    then some failed_precondition
    else if n == 10
    then some aborted
    else if n == 11
    then some out_of_range
    else if n == 12
    then some unimplemented
    else if n == 13
    then some internal
    else if n == 14
    then some unavailable
    else if n == 15
    then some data_loss
    else if n == 16
    then some unauthenticated
    else none

-- `Code::as_u8`: the discriminant.
unfoldable pub as_u8 : Code → ℕ
as_u8 ok = 0
as_u8 cancelled = 1
as_u8 unknown = 2
as_u8 invalid_argument = 3
as_u8 deadline_exceeded = 4
as_u8 not_found = 5
as_u8 already_exists = 6
as_u8 permission_denied = 7
as_u8 resource_exhausted = 8
as_u8 failed_precondition = 9
as_u8 aborted = 10
as_u8 out_of_range = 11
as_u8 unimplemented = 12
as_u8 internal = 13
as_u8 unavailable = 14
as_u8 data_loss = 15
as_u8 unauthenticated = 16

pub from_u8-as_u8 : (c : Code) → from_u8 (as_u8 c) ≡ some c
unfolding from_u8 as_u8
from_u8-as_u8 c = ground arith

pub as_u8-from_u8 : (n : ℕ) (c : Code) → from_u8 n ≡ some c → as_u8 c ≡ n
unfolding from_u8 as_u8
as_u8-from_u8 n c h = ground arith

pub as_u8-le : (c : Code) → as_u8 c ≤ 16
unfolding as_u8
as_u8-le c = ground arith

-- The wire numbers of the codes are 0 to 16: a number that `from_u8` accepts is the one that `as_u8`
-- writes for that code, every code is read back from its number, and none is above 16.
pub code_wire : (n : ℕ) (c : Code) → ((from_u8 n ≡ some c) ↔ (as_u8 c ≡ n)) × (as_u8 c ≤ 16)
code_wire n c =
    ((as_u8-from_u8 n c, λ e. subst (λ m. from_u8 m ≡ some c) e (from_u8-as_u8 c)), as_u8-le c)
