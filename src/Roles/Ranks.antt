-- ===== src/Roles/Ranks.antt =====
-- The two readings of a role agree: the ladder of privileges, and the lists of roles.
use secureprompt.Prelude.{◌≡◌, ◌↔◌, refl, true, list_keyed, nat_keyed}
use secureprompt.Types.{ok}
use secureprompt.Roles.{
  UserRole, owner, admin, developer, employee, viewer, as_db_str, from_db_str, can_write,
  require_role,
}

-- Every role is read back from the text that is stored for it, and it may write exactly if it passes
-- the check for an administrator.
pub from_db_str-as_db_str :
    (role : UserRole)
    → (from_db_str (as_db_str role) ≡ ok role)
      × ((can_write role ≡ true) ↔ (require_role role admin ≡ ok tt))
unfolding from_db_str as_db_str can_write require_role
from_db_str-as_db_str owner = (refl, (λ e. refl, λ e. refl))
from_db_str-as_db_str admin = (refl, (λ e. refl, λ e. refl))
from_db_str-as_db_str developer = (refl, (λ e. cc e, λ e. cc e))
from_db_str-as_db_str employee = (refl, (λ e. cc e, λ e. cc e))
from_db_str-as_db_str viewer = (refl, (λ e. cc e, λ e. cc e))
