-- ===== src/Router/Catalog.antt =====
-- src/agent_catalog.rs: the built-in agents.
use mail_subsystem.Prelude.{ℕ, Bool, true, false, not, List, [], ◌∷◌, Option, if◌then◌else◌, lex}
use mail_subsystem.Prelude.Text.{Text, codes}
use mail_subsystem.Strings.{trim_by, eq_ignore_ascii_case}
use mail_subsystem.Sql.{select_where, find_where, order_by}

pub data AgentTier : Type 0 where
  worker orchestrator : AgentTier

pub record AgentCatalogEntry : Type 0 where
  pub id : Text
  pub label : Text
  pub description : Text
  pub tier : AgentTier
  pub is_default : Bool
  pub advanced_only : Bool
  pub sort_order : ℕ

abbrev pub default_agent_id : Text
default_agent_id = codes "mail-assistant"

-- The order of str, by code points.
abbrev pub text_before : Text → Text → Bool
text_before [] [] = false
text_before [] (b ∷ bs) = true
text_before (a ∷ as') [] = false
text_before (a ∷ as') (b ∷ bs) = lex a b (text_before as' bs)

abbrev pub entry_before : AgentCatalogEntry → AgentCatalogEntry → Bool
entry_before a b = lex a.sort_order b.sort_order (text_before a.label b.label)

unfoldable pub sort_catalog_entries : List AgentCatalogEntry → List AgentCatalogEntry
sort_catalog_entries agents = order_by entry_before agents

unfoldable pub listed_agents : List AgentCatalogEntry
listed_agents =
    record {
      id = codes "mail-assistant";
      label = codes "Mail Assistant";
      description =
          codes
            "Primary conversational front door for mailbox questions, summaries, and organization guidance.";
      tier = worker;
      is_default = true;
      advanced_only = false;
      sort_order = 0;
    }
    ∷ record {
      id = codes "email-analyzer";
      label = codes "Email Analyzer";
      description =
          codes
            "Classifies one email, summarizes it, and flags security risk before automation acts.";
      tier = worker;
      is_default = false;
      advanced_only = true;
      sort_order = 100;
    }
    ∷ record {
      id = codes "location-agent";
      label = codes "Location Agent";
      description =
          codes
            "Picks the most appropriate IMAP folder for a message using the account's live folder map.";
      tier = worker;
      is_default = false;
      advanced_only = true;
      sort_order = 110;
    }
    ∷ record {
      id = codes "orchestrator";
      label = codes "Orchestrator";
      description =
          codes "Supervises higher-judgment work, escalations, and batch-level quality decisions.";
      tier = orchestrator;
      is_default = false;
      advanced_only = true;
      sort_order = 120;
    }
    ∷ record {
      id = codes "digest-agent";
      label = codes "Digest Agent";
      description =
          codes
            "Builds structured daily or weekly inbox digests with trends, senders, and actions.";
      tier = worker;
      is_default = false;
      advanced_only = true;
      sort_order = 130;
    }
    ∷ record {
      id = codes "folder-consolidator";
      label = codes "Folder Consolidator";
      description =
          codes
            "Finds redundant folders and proposes safer consolidation patterns across the mailbox.";
      tier = worker;
      is_default = false;
      advanced_only = true;
      sort_order = 140;
    }
    ∷ []

unfoldable pub builtin_agents : List AgentCatalogEntry
unfolding sort_catalog_entries listed_agents
builtin_agents = sort_catalog_entries listed_agents

unfoldable pub visible_agents : List AgentCatalogEntry → List AgentCatalogEntry
visible_agents catalog =
    sort_catalog_entries (select_where (λ (a : AgentCatalogEntry). not a.advanced_only) catalog)

unfoldable pub user_facing_agents : Bool → List AgentCatalogEntry
user_facing_agents allow_advanced =
    if allow_advanced then builtin_agents else visible_agents builtin_agents

unfoldable pub find_agent : (ℕ → Bool) → Text → Option AgentCatalogEntry
find_agent is_whitespace agent_id =
    find_where
      (λ (a : AgentCatalogEntry). eq_ignore_ascii_case a.id (trim_by is_whitespace agent_id))
      builtin_agents
