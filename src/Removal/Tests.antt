-- ===== src/Removal/Tests.antt =====
-- Removal at concrete errors.
use terraform_provider_redpa.Base.{◌≡◌, ◌↔◌, true, false, Option, none, some, codes}
use terraform_provider_redpa.Errors.{GoError, permission_denied}
use terraform_provider_redpa.Values.{known}
use terraform_provider_redpa.Removal.{remove_from_state, handle_graceful_removal}
use terraform_provider_redpa.Removal.Laws.{IsGone, MayLeave, remove_iff}

abbrev denied : Option GoError
denied = some (record {
  text = codes "no access";
  has_not_found_error = false;
  status = some (record {
    code = permission_denied;
    code_text = codes "PermissionDenied";
    message = codes "no access";
    details = none;
  });
})

remove_iff_example :
    ((handle_graceful_removal (codes "topic") (codes "t") (known true) denied (codes "find")).0
      ≡ remove_from_state)
    ↔ (IsGone denied × MayLeave (known true))
remove_iff_example = remove_iff (codes "topic") (codes "t") (known true) denied (codes "find")
