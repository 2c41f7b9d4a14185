-- ===== src/Authz/Catalogue.antt =====
-- src/authz/catalogue.ts: every action with the resource that it operates on and the narrowest
-- level at which a grant conveys it. The descriptions, which are product copy, are left out.
use ratline.Prelude.{String, Bool, List, [], ◌∷◌, map, filter, ◌++◌, any, str_eq}

pub data ScopeLevel : Type 0 where
  organization_level team_level project_level environment_level resource_level : ScopeLevel

pub data ResourceType : Type 0 where
  organization team member role grant service_identity api_token : ResourceType
  project environment site release deployment secret domain : ResourceType
  certificate scheduled_job host firewall backup terminal ssh_grant : ResourceType
  ssh_key ssh_authority audit_log billing : ResourceType

pub record ActionDefinition : Type 0 where
  pub name : String
  pub resource : ResourceType
  pub scope : ScopeLevel

abbrev act : String → ResourceType → ScopeLevel → ActionDefinition
act name resource scope = record { name = name; resource = resource; scope = scope }

abbrev organization_actions : List ActionDefinition
organization_actions =
    act "organization.read" organization organization_level
    ∷ act "organization.update" organization organization_level
    ∷ act "organization.delete" organization organization_level
    ∷ act "organization.transfer_ownership" organization organization_level
    ∷ act "organization.manage_sso" organization organization_level
    ∷ act "organization.manage_security_policy" organization organization_level
    ∷ act "team.read" team team_level
    ∷ act "team.create" team organization_level
    ∷ act "team.update" team team_level
    ∷ act "team.delete" team team_level
    ∷ act "team.manage_members" team team_level
    ∷ act "member.read" member organization_level
    ∷ act "member.invite" member organization_level
    ∷ act "member.remove" member organization_level
    ∷ act "member.revoke_sessions" member organization_level
    ∷ act "member.reset_password" member organization_level
    ∷ act "member.reset_two_factor" member organization_level
    ∷ act "role.read" role organization_level
    ∷ act "role.create" role organization_level
    ∷ act "role.update" role organization_level
    ∷ act "role.delete" role organization_level
    ∷ []

abbrev access_actions : List ActionDefinition
access_actions =
    act "grant.read" grant resource_level
    ∷ act "grant.create" grant resource_level
    ∷ act "grant.revoke" grant resource_level
    ∷ act "grant.break_glass" grant organization_level
    ∷ act "service_identity.read" service_identity organization_level
    ∷ act "service_identity.create" service_identity organization_level
    ∷ act "service_identity.delete" service_identity organization_level
    ∷ act "api_token.manage_own" api_token organization_level
    ∷ act "api_token.read_any" api_token organization_level
    ∷ act "api_token.revoke_any" api_token organization_level
    ∷ act "project.read" project project_level
    ∷ act "project.create" project team_level
    ∷ act "project.update" project project_level
    ∷ act "project.delete" project project_level
    ∷ act "environment.read" environment environment_level
    ∷ act "environment.create" environment project_level
    ∷ act "environment.update" environment environment_level
    ∷ act "environment.delete" environment environment_level
    ∷ []

abbrev deployment_actions : List ActionDefinition
deployment_actions =
    act "site.read" site resource_level
    ∷ act "site.create" site environment_level
    ∷ act "site.update" site resource_level
    ∷ act "site.delete" site resource_level
    ∷ act "site.restart" site resource_level
    ∷ act "site.build_command.write" site resource_level
    ∷ act "site.run_command" site resource_level
    ∷ act "site.read_logs" site resource_level
    ∷ act "site.read_metrics" site resource_level
    ∷ act "site.manage_runtime" site resource_level
    ∷ act "site.manage_resource_limits" site resource_level
    ∷ act "site.manage_deploy_triggers" site resource_level
    ∷ act "release.read" release resource_level
    ∷ act "release.delete" release resource_level
    ∷ act "deployment.read" deployment resource_level
    ∷ act "deployment.read_logs" deployment resource_level
    ∷ act "deployment.create_nonproduction" deployment environment_level
    ∷ act "deployment.create_production" deployment environment_level
    ∷ act "deployment.rollback_nonproduction" deployment environment_level
    ∷ act "deployment.rollback_production" deployment environment_level
    ∷ act "deployment.cancel" deployment environment_level
    ∷ []

abbrev configuration_actions : List ActionDefinition
configuration_actions =
    act "secret.read_name" secret environment_level
    ∷ act "secret.read_value" secret environment_level
    ∷ act "secret.create" secret environment_level
    ∷ act "secret.update" secret environment_level
    ∷ act "secret.delete" secret environment_level
    ∷ act "secret.read_history" secret environment_level
    ∷ act "domain.read" domain resource_level
    ∷ act "domain.create" domain resource_level
    ∷ act "domain.delete" domain resource_level
    ∷ act "certificate.read" certificate resource_level
    ∷ act "certificate.upload" certificate resource_level
    ∷ act "certificate.renew" certificate resource_level
    ∷ act "scheduled_job.read" scheduled_job resource_level
    ∷ act "scheduled_job.create" scheduled_job resource_level
    ∷ act "scheduled_job.update" scheduled_job resource_level
    ∷ act "scheduled_job.delete" scheduled_job resource_level
    ∷ act "scheduled_job.run_now" scheduled_job resource_level
    ∷ act "scheduled_job.read_output" scheduled_job resource_level
    ∷ []

abbrev operations_actions : List ActionDefinition
operations_actions =
    act "host.read" host resource_level
    ∷ act "host.create" host organization_level
    ∷ act "host.update" host resource_level
    ∷ act "host.delete" host resource_level
    ∷ act "host.read_metrics" host resource_level
    ∷ act "host.manage_stack" host resource_level
    ∷ act "host.manage_updates" host resource_level
    ∷ act "host.upgrade_agent" host resource_level
    ∷ act "firewall.read" firewall resource_level
    ∷ act "firewall.update" firewall resource_level
    ∷ act "backup.read" backup resource_level
    ∷ act "backup.create" backup resource_level
    ∷ act "backup.restore" backup resource_level
    ∷ act "backup.delete" backup resource_level
    ∷ act "backup.manage_policy" backup resource_level
    ∷ act "terminal.open" terminal resource_level
    ∷ act "terminal.read_recording" terminal resource_level
    ∷ act "ssh_grant.read" ssh_grant resource_level
    ∷ act "ssh_grant.create" ssh_grant resource_level
    ∷ act "ssh_grant.revoke" ssh_grant resource_level
    ∷ act "ssh_key.manage_own" ssh_key organization_level
    ∷ act "ssh_key.read_any" ssh_key organization_level
    ∷ act "ssh_key.revoke_any" ssh_key organization_level
    ∷ act "ssh_authority.read" ssh_authority organization_level
    ∷ act "ssh_authority.rotate" ssh_authority organization_level
    ∷ act "audit_log.read" audit_log organization_level
    ∷ act "billing.read" billing organization_level
    ∷ act "billing.update" billing organization_level
    ∷ []

-- `ACTIONS`
unfoldable pub action_catalogue : List ActionDefinition
action_catalogue =
    organization_actions
    ++ (access_actions ++ (deployment_actions ++ (configuration_actions ++ operations_actions)))

-- `Object.hasOwn(ACTION_CATALOGUE, value)`, at a text.
unfoldable pub is_action : String → Bool
unfolding action_catalogue
is_action value = any (λ d. str_eq value d.name) action_catalogue

unfoldable pub all_actions : List String
unfolding action_catalogue
all_actions = filter is_action (map (λ d. d.name) action_catalogue)
