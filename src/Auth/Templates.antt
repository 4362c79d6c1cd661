-- ===== src/Auth/Templates.antt =====
-- internal/controller/common/auth.go: the texts of the two templates.
use airflow_operator.Prelude.{String, [], ◌∷◌}
use airflow_operator.Go.Text.{concat}

-- The template of `getOidcConfig`.
unfoldable pub oidc_template : String
oidc_template = concat (
    "\n" ∷ "AUTH_TYPE = '{{ .auth_type }}'\n" ∷ "\n" ∷ "{{- if .auth_roles_sync_at_login }}\n"
    ∷ "AUTH_ROLES_SYNC_AT_LOGIN = '{{ .auth_roles_sync_at_login }}'\n" ∷ "{{- end }}\n"
    ∷ "{{- if .user_registration }}\n" ∷ "AUTH_USER_REGISTRATION = {{ .user_registration }}\n"
    ∷ "{{- end }}\n" ∷ "{{- if .user_registration_role }}\n"
    ∷ "AUTH_USER_REGISTRATION_ROLE = '{{ .user_registration_role }}'\n" ∷ "{{- end }}\n" ∷ "\n"
    ∷ "OAUTH_PROVIDERS = [\n" ∷ "{{- range .providers }}\n" ∷ "\t\t\t\t\t{\n"
    ∷ "\t\t\t\t\t\t'name': 'keycloak',\n" ∷ "\t\t\t\t\t\t'token_key': 'access_token',\n"
    ∷ "\t\t\t\t\t\t'remote_app': {\n" ∷ "\t\t\t\t\t\t\t'client_id': {{ .client_id }},\n"
    ∷ "\t\t\t\t\t\t\t'client_secret': {{ .client_secret }},\n"
    ∷ "\t\t\t\t\t\t\t'client_kwargs': {\n" ∷ "\t\t\t\t\t\t\t\t'scope': {{ .scopes }},\n"
    ∷ "\t\t\t\t\t\t\t},\n" ∷ "\t\t\t\t\t\t\t'api_base_url': {{ .api_base_url }},\n"
    ∷ "\t\t\t\t\t\t\t'server_metadata_url': {{ .server_metadata_url }},\n" ∷ "\t\t\t\t\t\t}\n"
    ∷ "\t\t\t\t\t},\n" ∷ "{{ end }}\n" ∷ "\t\t\t\t]\n" ∷ [])

-- The template of `getLdapConfig`.
unfoldable pub ldap_template : String
ldap_template = concat (
    "\n" ∷ "AUTH_TYPE = '{{ .auth_type }}'\n" ∷ "\n" ∷ "{{- if .auth_roles_sync_at_login }}\n"
    ∷ "AUTH_ROLES_SYNC_AT_LOGIN = '{{ .auth_roles_sync_at_login }}'\n" ∷ "{{- end }}\n"
    ∷ "{{- if .user_registration }}\n" ∷ "AUTH_USER_REGISTRATION = {{ .user_registration }}\n"
    ∷ "{{- end }}\n" ∷ "{{- if .user_registration_role }}\n"
    ∷ "AUTH_USER_REGISTRATION_ROLE = '{{ .user_registration_role }}'\n" ∷ "{{- end }}\n" ∷ "\n"
    ∷ "AUTH_LDAP_SERVER = '{{ .auth_ldap_server }}'\n"
    ∷ "AUTH_LDAP_SEARCH = '{{ .auth_ldap_search }}'\n"
    ∷ "AUTH_LDAP_SEARCH_FILTER = '{{ .auth_ldap_search_filter }}'\n"
    ∷ "AUTH_LDAP_UID_FIELD = '{{ .auth_ldap_uid_field }}'\n"
    ∷ "AUTH_LDAP_GROUP_FIELD = '{{ .auth_ldap_group_field }}'\n"
    ∷ "AUTH_LDAP_FIRSTNAME_FIELD = '{{ .auth_ldap_firstname_field }}'\n"
    ∷ "AUTH_LDAP_LASTNAME_FIELD = '{{ .auth_ldap_lastname_field }}'\n"
    ∷ "AUTH_LDAP_EMAIL_FIELD = '{{ .auth_ldap_email_field }}'\n" ∷ "\n"
    ∷ "{{- if .auth_ldap_bind_user_file }}\n"
    ∷ "with open('{{ .auth_ldap_bind_user_file }}', 'r') as f:\n"
    ∷ "\tAUTH_LDAP_BIND_USER = f.read().strip()\n" ∷ "{{- end }}\n" ∷ "\n"
    ∷ "{{- if .auth_ldap_bind_password_file }}\n"
    ∷ "with open('{{ .auth_ldap_bind_password_file }}', 'r') as f:\n"
    ∷ "\tAUTH_LDAP_BIND_PASSWORD = f.read().strip()\n" ∷ "{{- end }}\n" ∷ [])
