-- ===== src/Roles.antt =====
-- The roles of users: http/middleware/jwt_auth.rs and http/routes/dashboard/role.rs of
-- secureprompt-api.
pub mod Ranks
use secureprompt.Prelude.{
  ℕ, leb, if◌then◌else◌, Bool, true, false, ◌++◌, [], ◌∷◌, ◌==◌, list_keyed, nat_keyed,
}
use secureprompt.Text.{Str, lit}
use secureprompt.Types.{ApiError, forbidden, internal, Result, ok, err}

pub data UserRole : Type 0 where
  owner admin developer employee viewer : UserRole

unfoldable pub as_db_str : UserRole → Str
as_db_str owner = lit "owner"
as_db_str admin = lit "admin"
as_db_str developer = lit "developer"
as_db_str employee = lit "employee"
as_db_str viewer = lit "viewer"

unfoldable pub from_db_str : Str → Result UserRole
from_db_str value =
    if value == lit "owner"
    then ok owner
    else if value == lit "admin"
    then ok admin
    else if value == lit "developer"
    then ok developer
    else if value == lit "employee"
    then ok employee
    else if value == lit "member"
    then ok developer
    else if value == lit "viewer"
    then ok viewer
    else err (internal (lit "unknown role: " ++ value))

unfoldable pub can_write : UserRole → Bool
can_write owner = true
can_write admin = true
can_write developer = false
can_write employee = false
can_write viewer = false

unfoldable pub can_read_all_audit : UserRole → Bool
can_read_all_audit owner = true
can_read_all_audit admin = true
can_read_all_audit developer = true
can_read_all_audit employee = false
can_read_all_audit viewer = false

unfoldable pub privilege_level : UserRole → ℕ
privilege_level owner = 4
privilege_level admin = 3
privilege_level developer = 2
privilege_level employee = 1
privilege_level viewer = 1

unfoldable pub require_role : UserRole → UserRole → Result (Unit {0})
unfolding privilege_level
require_role role minimum =
    if leb (privilege_level minimum) (privilege_level role)
    then ok tt
    else err (forbidden (lit "insufficient role"))
