-- ===== src/Authz/Roles.antt =====
-- src/authz/roles.ts: the default roles and the actions that each composes. Names and descriptions
-- for people are left out.
pub mod Laws
use ratline.Prelude.{String, Bool, true, false, List, [], ◌∷◌, map, any, filter, str_eq}

unfoldable pub owner_actions : List String
owner_actions =
    "organization.read" ∷ "organization.update" ∷ "organization.delete"
    ∷ "organization.transfer_ownership" ∷ "organization.manage_sso"
    ∷ "organization.manage_security_policy" ∷ "team.read" ∷ "team.create" ∷ "team.update"
    ∷ "team.delete" ∷ "team.manage_members" ∷ "member.read" ∷ "member.invite" ∷ "member.remove"
    ∷ "member.revoke_sessions" ∷ "member.reset_password" ∷ "member.reset_two_factor" ∷ "role.read"
    ∷ "role.create" ∷ "role.update" ∷ "role.delete" ∷ "grant.read" ∷ "grant.create" ∷ "grant.revoke"
    ∷ "grant.break_glass" ∷ "service_identity.read" ∷ "service_identity.create"
    ∷ "service_identity.delete" ∷ "api_token.manage_own" ∷ "api_token.read_any"
    ∷ "api_token.revoke_any" ∷ "project.read" ∷ "project.create" ∷ "project.update"
    ∷ "project.delete" ∷ "environment.read" ∷ "environment.create" ∷ "environment.update"
    ∷ "environment.delete" ∷ "site.read" ∷ "site.create" ∷ "site.update" ∷ "site.delete"
    ∷ "site.restart" ∷ "site.build_command.write" ∷ "site.run_command" ∷ "site.read_logs"
    ∷ "site.read_metrics" ∷ "site.manage_runtime" ∷ "site.manage_resource_limits"
    ∷ "site.manage_deploy_triggers" ∷ "release.read" ∷ "release.delete" ∷ "deployment.read"
    ∷ "deployment.read_logs" ∷ "deployment.create_nonproduction" ∷ "deployment.create_production"
    ∷ "deployment.rollback_nonproduction" ∷ "deployment.rollback_production" ∷ "deployment.cancel"
    ∷ "secret.read_name" ∷ "secret.read_value" ∷ "secret.create" ∷ "secret.update" ∷ "secret.delete"
    ∷ "secret.read_history" ∷ "domain.read" ∷ "domain.create" ∷ "domain.delete" ∷ "certificate.read"
    ∷ "certificate.upload" ∷ "certificate.renew" ∷ "scheduled_job.read" ∷ "scheduled_job.create"
    ∷ "scheduled_job.update" ∷ "scheduled_job.delete" ∷ "scheduled_job.run_now"
    ∷ "scheduled_job.read_output" ∷ "host.read" ∷ "host.create" ∷ "host.update" ∷ "host.delete"
    ∷ "host.read_metrics" ∷ "host.manage_stack" ∷ "host.manage_updates" ∷ "host.upgrade_agent"
    ∷ "firewall.read" ∷ "firewall.update" ∷ "backup.read" ∷ "backup.create" ∷ "backup.restore"
    ∷ "backup.delete" ∷ "backup.manage_policy" ∷ "terminal.open" ∷ "terminal.read_recording"
    ∷ "ssh_grant.read" ∷ "ssh_grant.create" ∷ "ssh_grant.revoke" ∷ "ssh_key.manage_own"
    ∷ "ssh_key.read_any" ∷ "ssh_key.revoke_any" ∷ "ssh_authority.read" ∷ "ssh_authority.rotate"
    ∷ "audit_log.read" ∷ "billing.read" ∷ "billing.update" ∷ []

unfoldable pub admin_actions : List String
admin_actions =
    "organization.read" ∷ "organization.update" ∷ "organization.manage_sso"
    ∷ "organization.manage_security_policy" ∷ "team.read" ∷ "team.create" ∷ "team.update"
    ∷ "team.delete" ∷ "team.manage_members" ∷ "member.read" ∷ "member.invite" ∷ "member.remove"
    ∷ "member.revoke_sessions" ∷ "member.reset_password" ∷ "member.reset_two_factor" ∷ "role.read"
    ∷ "role.create" ∷ "role.update" ∷ "role.delete" ∷ "grant.read" ∷ "grant.create" ∷ "grant.revoke"
    ∷ "grant.break_glass" ∷ "service_identity.read" ∷ "service_identity.create"
    ∷ "service_identity.delete" ∷ "api_token.manage_own" ∷ "api_token.read_any"
    ∷ "api_token.revoke_any" ∷ "project.read" ∷ "project.create" ∷ "project.update"
    ∷ "project.delete" ∷ "environment.read" ∷ "environment.create" ∷ "environment.update"
    ∷ "environment.delete" ∷ "site.read" ∷ "site.create" ∷ "site.update" ∷ "site.delete"
    ∷ "site.restart" ∷ "site.build_command.write" ∷ "site.run_command" ∷ "site.read_logs"
    ∷ "site.read_metrics" ∷ "site.manage_runtime" ∷ "site.manage_resource_limits"
    ∷ "site.manage_deploy_triggers" ∷ "release.read" ∷ "release.delete" ∷ "deployment.read"
    ∷ "deployment.read_logs" ∷ "deployment.create_nonproduction" ∷ "deployment.create_production"
    ∷ "deployment.rollback_nonproduction" ∷ "deployment.rollback_production" ∷ "deployment.cancel"
    ∷ "secret.read_name" ∷ "secret.read_value" ∷ "secret.create" ∷ "secret.update" ∷ "secret.delete"
    ∷ "secret.read_history" ∷ "domain.read" ∷ "domain.create" ∷ "domain.delete" ∷ "certificate.read"
    ∷ "certificate.upload" ∷ "certificate.renew" ∷ "scheduled_job.read" ∷ "scheduled_job.create"
    ∷ "scheduled_job.update" ∷ "scheduled_job.delete" ∷ "scheduled_job.run_now"
    ∷ "scheduled_job.read_output" ∷ "host.read" ∷ "host.create" ∷ "host.update" ∷ "host.delete"
    ∷ "host.read_metrics" ∷ "host.manage_stack" ∷ "host.manage_updates" ∷ "host.upgrade_agent"
    ∷ "firewall.read" ∷ "firewall.update" ∷ "backup.read" ∷ "backup.create" ∷ "backup.restore"
    ∷ "backup.delete" ∷ "backup.manage_policy" ∷ "terminal.open" ∷ "terminal.read_recording"
    ∷ "ssh_grant.read" ∷ "ssh_grant.create" ∷ "ssh_grant.revoke" ∷ "ssh_key.manage_own"
    ∷ "ssh_key.read_any" ∷ "ssh_key.revoke_any" ∷ "ssh_authority.read" ∷ "ssh_authority.rotate"
    ∷ "audit_log.read" ∷ "billing.read" ∷ "billing.update" ∷ []

unfoldable pub infrastructure_actions : List String
infrastructure_actions =
    "organization.read" ∷ "team.read" ∷ "member.read" ∷ "member.revoke_sessions" ∷ "role.read"
    ∷ "grant.read" ∷ "grant.break_glass" ∷ "api_token.manage_own" ∷ "project.read"
    ∷ "environment.read" ∷ "site.read" ∷ "site.restart" ∷ "site.read_logs" ∷ "site.read_metrics"
    ∷ "site.manage_runtime" ∷ "site.manage_resource_limits" ∷ "release.read" ∷ "deployment.read"
    ∷ "deployment.cancel" ∷ "secret.read_name" ∷ "secret.read_history" ∷ "domain.read"
    ∷ "domain.create" ∷ "domain.delete" ∷ "certificate.read" ∷ "certificate.upload"
    ∷ "certificate.renew" ∷ "scheduled_job.read" ∷ "scheduled_job.read_output" ∷ "host.read"
    ∷ "host.create" ∷ "host.update" ∷ "host.delete" ∷ "host.read_metrics" ∷ "host.manage_stack"
    ∷ "host.manage_updates" ∷ "host.upgrade_agent" ∷ "firewall.read" ∷ "firewall.update"
    ∷ "backup.read" ∷ "backup.create" ∷ "backup.restore" ∷ "backup.delete" ∷ "backup.manage_policy"
    ∷ "terminal.open" ∷ "ssh_grant.read" ∷ "ssh_grant.create" ∷ "ssh_grant.revoke"
    ∷ "ssh_key.manage_own" ∷ "ssh_key.read_any" ∷ "ssh_key.revoke_any" ∷ "ssh_authority.read"
    ∷ "ssh_authority.rotate" ∷ []

unfoldable pub release_manager_actions : List String
release_manager_actions =
    "organization.read" ∷ "team.read" ∷ "member.read" ∷ "grant.break_glass" ∷ "api_token.manage_own"
    ∷ "project.read" ∷ "environment.read" ∷ "site.read" ∷ "site.restart" ∷ "site.read_logs"
    ∷ "site.read_metrics" ∷ "release.read" ∷ "release.delete" ∷ "deployment.read"
    ∷ "deployment.read_logs" ∷ "deployment.create_nonproduction" ∷ "deployment.create_production"
    ∷ "deployment.rollback_nonproduction" ∷ "deployment.rollback_production" ∷ "deployment.cancel"
    ∷ "secret.read_name" ∷ "secret.read_history" ∷ "domain.read" ∷ "certificate.read"
    ∷ "scheduled_job.read" ∷ "scheduled_job.run_now" ∷ "scheduled_job.read_output" ∷ "host.read"
    ∷ "host.read_metrics" ∷ "backup.read" ∷ "backup.create" ∷ "ssh_key.manage_own" ∷ []

unfoldable pub developer_actions : List String
developer_actions =
    "organization.read" ∷ "team.read" ∷ "member.read" ∷ "grant.break_glass" ∷ "api_token.manage_own"
    ∷ "project.read" ∷ "environment.read" ∷ "site.read" ∷ "site.read_logs" ∷ "site.read_metrics"
    ∷ "release.read" ∷ "deployment.read" ∷ "deployment.read_logs"
    ∷ "deployment.create_nonproduction" ∷ "deployment.rollback_nonproduction" ∷ "deployment.cancel"
    ∷ "secret.read_name" ∷ "secret.read_history" ∷ "domain.read" ∷ "certificate.read"
    ∷ "scheduled_job.read" ∷ "scheduled_job.read_output" ∷ "ssh_key.manage_own" ∷ []

unfoldable pub viewer_actions : List String
viewer_actions =
    "organization.read" ∷ "team.read" ∷ "member.read" ∷ "project.read" ∷ "environment.read"
    ∷ "site.read" ∷ "site.read_metrics" ∷ "release.read" ∷ "deployment.read" ∷ "domain.read"
    ∷ "certificate.read" ∷ "scheduled_job.read" ∷ []

unfoldable pub billing_actions : List String
billing_actions = "billing.read" ∷ "billing.update" ∷ []

pub record RoleDefinition : Type 0 where
  pub key : String
  pub actions : List String
  pub last_holder_protected : Bool

abbrev role : String → List String → Bool → RoleDefinition
role key actions protected = record {
  key = key;
  actions = actions;
  last_holder_protected = protected;
}

unfoldable pub all_default_roles : List RoleDefinition
unfolding owner_actions admin_actions infrastructure_actions release_manager_actions
    developer_actions viewer_actions billing_actions
all_default_roles =
    role "owner" owner_actions true
    ∷ role "admin" admin_actions false
    ∷ role "infrastructure" infrastructure_actions false
    ∷ role "release_manager" release_manager_actions false
    ∷ role "developer" developer_actions false
    ∷ role "viewer" viewer_actions false
    ∷ role "billing" billing_actions false
    ∷ []

-- `rolesCarrying` of src/authz/can.ts.
unfoldable pub roles_carrying : String → List String
unfolding all_default_roles
roles_carrying action =
    map (λ r. r.key) (filter (λ r. any (str_eq action) r.actions) all_default_roles)
