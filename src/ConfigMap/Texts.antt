-- ===== src/ConfigMap/Texts.antt =====
-- internal/controller/common/config.go: the texts of the Python files.
use airflow_operator.Prelude.{String, [], ◌∷◌}
use airflow_operator.Go.Text.{concat}

-- log_config.py, from the directory, the file and the three levels.
unfoldable pub log_config : (log_dir log_file console_level file_level root_level : String) → String
log_config log_dir log_file console_level file_level root_level = concat (
    "\n" ∷ "import logging\n" ∷ "import os\n" ∷ "from copy import deepcopy\n"
    ∷ "from logging.config import dictConfig\n" ∷ "\n"
    ∷ "from airflow.config_templates.airflow_local_settings import DEFAULT_LOGGING_CONFIG\n" ∷ "\n"
    ∷ "LOGDIR = '" ∷ log_dir ∷ "'\n" ∷ "\n" ∷ "os.makedirs(LOGDIR, exist_ok=True)\n" ∷ "\n"
    ∷ "LOGGING_CONFIG = deepcopy(DEFAULT_LOGGING_CONFIG)\n" ∷ "\n"
    ∷ "LOGGING_CONFIG.setdefault('loggers', {})\n"
    ∷ "for logger_name, logger_config in LOGGING_CONFIG['loggers'].items():\n"
    ∷ "\tlogger_config['level'] = logging.NOTSET\n"
    ∷ "\t# Do not change the setting of the airflow.task logger because\n"
    ∷ "\t# otherwise DAGs cannot be loaded anymore.\n" ∷ "\tif logger_name != 'airflow.task':\n"
    ∷ "\t\tlogger_config['propagate'] == True\n" ∷ "\n"
    ∷ "LOGGING_CONFIG.setdefault('formatters', {})\n" ∷ "LOGGING_CONFIG['formatters']['json'] = {\n"
    ∷ "\t'()': 'airflow.utils.log.json_formatter.JSONFormatter',\n"
    ∷ "\t'json_fields': ['asctime', 'levelname', 'message', 'name']\n" ∷ "}\n" ∷ "\n"
    ∷ "LOGGING_CONFIG.setdefault('handlers', {})\n"
    ∷ "LOGGING_CONFIG['handlers'].setdefault('console', {})\n"
    ∷ "LOGGING_CONFIG['handlers']['console']['level'] = '" ∷ console_level ∷ "'\n"
    ∷ "LOGGING_CONFIG['handlers']['file'] = {\n"
    ∷ "\t'class': 'logging.handlers.RotatingFileHandler',\n" ∷ "\t'formatter': 'json',\n"
    ∷ "\t'level': '" ∷ file_level ∷ "',\n" ∷ "\t'filename': '" ∷ log_file ∷ "',\n"
    ∷ "\t'maxBytes': 10485760,\n" ∷ "\t'backupCount': 5\n" ∷ "}\n" ∷ "\n"
    ∷ "LOGGING_CONFIG['root'] = {\n" ∷ "\t'level': '" ∷ root_level ∷ "',\n"
    ∷ "\t'handlers': ['console', 'file'],\n" ∷ "\t'filters': ['mask_secrets']\n" ∷ "}\n" ∷ [])

-- The start of webserver_config.py.
unfoldable pub webserver_config : String
webserver_config = concat (
    "\n" ∷ "import os\n" ∷ "\n"
    ∷ "from flask_appbuilder.const import (AUTH_DB, AUTH_LDAP, AUTH_OAUTH, AUTH_OID, AUTH_REMOTE_USER)\n"
    ∷ "\n" ∷ "\n" ∷ "baseDir = os.path.abspath(os.path.dirname(__file__))\n" ∷ "\n"
    ∷ "WTF_CSRF_ENABLED = False\n" ∷ "\n" ∷ [])
