-- ===== src/Focus/Categories.antt =====
-- packages/focus/src/cloudcause_focus/categories.py; `lower` is Python's `str.lower`.
use cloudcause.Prelude.{String, List, [], ◌∷◌, any, if◌then◌else◌}
use cloudcause.Prelude.Text.{has_part}

abbrev pub service_category_keywords : List (List String × String)
service_category_keywords =
    (
      "nat gateway" ∷ "virtual private cloud" ∷ "vpc" ∷ "cloud nat" ∷ "load balanc" ∷ "cdn"
          ∷ "front door" ∷ "data transfer" ∷ "networking" ∷ "bandwidth" ∷ "cloud interconnect"
          ∷ "expressroute" ∷ [],
      "Networking",
    )
    ∷ (
      "ec2" ∷ "compute engine" ∷ "virtual machines" ∷ "app service" ∷ "lambda" ∷ "functions"
          ∷ "cloud run" ∷ "fargate" ∷ "container" ∷ "kubernetes" ∷ "aks" ∷ "eks" ∷ "gke" ∷ [],
      "Compute",
    )
    ∷ (
      "s3" ∷ "simple storage" ∷ "ebs" ∷ "elastic block" ∷ "blob" ∷ "cloud storage" ∷ "filestore"
          ∷ "snapshot" ∷ "managed disks" ∷ "efs" ∷ "backup" ∷ [],
      "Storage",
    )
    ∷ (
      "rds" ∷ "aurora" ∷ "dynamodb" ∷ "cosmos" ∷ "sql database" ∷ "cloud sql" ∷ "bigtable"
          ∷ "spanner" ∷ "redis" ∷ "cache" ∷ "database" ∷ [],
      "Databases",
    )
    ∷ (
      "bedrock" ∷ "sagemaker" ∷ "vertex ai" ∷ "openai" ∷ "cognitive" ∷ "translation" ∷ "ai platform"
          ∷ "machine learning" ∷ [],
      "AI and Machine Learning",
    )
    ∷ (
      "bigquery" ∷ "athena" ∷ "synapse" ∷ "dataflow" ∷ "kinesis" ∷ "event hubs" ∷ "pub/sub"
          ∷ "analytics" ∷ [],
      "Analytics",
    )
    ∷ (
      "cloudwatch" ∷ "monitor" ∷ "logging" ∷ "cloudtrail" ∷ "config" ∷ "advisor" ∷ "trusted advisor"
          ∷ "management" ∷ [],
      "Management and Governance",
    )
    ∷ (
      "kms" ∷ "secrets manager" ∷ "key vault" ∷ "iam" ∷ "guardduty" ∷ "defender" ∷ "security" ∷ [],
      "Security",
    )
    ∷ []

abbrev pub category_in : List (List String × String) → String → String
category_in [] lowered = "Other"
category_in ((keywords, category) ∷ rest) lowered =
    if any (λ keyword. has_part keyword lowered) keywords
    then category
    else category_in rest lowered

unfoldable pub service_category : (String → String) → String → String
service_category lower service_name = category_in service_category_keywords (lower service_name)
