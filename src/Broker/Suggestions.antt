-- ===== src/Broker/Suggestions.antt =====
-- intent/matcher.go and MatchIntent on two tools and ASCII texts.
use neuralgentics.Prelude.{
  ◌≡◌, refl, List, [], ◌∷◌, ◌+◌, none, ◌&&◌, ◌||◌, leb, if◌then◌else◌, ok, number_comparable,
  string_comparable,
}
use neuralgentics.Broker.Transport.{ServerConfig, ToolSummary}
use neuralgentics.Broker.Registry.{register, new_registry, modify, set_tools}
use neuralgentics.Broker.Proxy.{new_mcp_proxy}
use neuralgentics.Broker.Intent.Words.{
  Alphabet, codes, stem_tokens, tokenize, remove_stop_words, same_token, contains_token,
}
use neuralgentics.Broker.Intent.{score_tool, match_tool, intent_tokens, scored}
use neuralgentics.Broker.Core.{Broker, new_broker}
use neuralgentics.Broker.Core.Matching.{Answers, match_intent, match_intent-Answers}

abbrev ascii : Alphabet
ascii = record {
  is_word =
      λ c. (leb b'a' c && leb c b'z') || ((leb b'A' c && leb c b'Z') || (leb b'0' c && leb c b'9'));
  to_lower = λ c. if leb b'A' c && leb c b'Z' then c + 32 else c;
}

abbrev search_tool : ToolSummary
search_tool = record { server = "searxng"; name = "web_search"; description = "Search the web" }

abbrev commit_tool : ToolSummary
commit_tool = record { server = "github-mcp"; name = "commit"; description = "Writes a commit" }

abbrev tools : List ToolSummary
tools = commit_tool ∷ search_tool ∷ []

-- The stem of "Searching" is that of "Search".
match_search :
    match_tool ascii tools (codes "Searching the web")
    ≡ ok (scored ascii (intent_tokens ascii (codes "Searching the web")) search_tool)
unfolding match_tool score_tool remove_stop_words tokenize same_token stem_tokens contains_token
match_search = refl

abbrev github_config : ServerConfig
github_config = record {
  name = "github-mcp";
  command = "gh-mcp";
  args = [];
  env = none;
  kind = "stdio";
  description = "";
  capabilities = [];
}

abbrev broker : Broker
broker = record {
  registry = modify (set_tools (commit_tool ∷ [])) 0 (register new_registry github_config);
  proxy = new_mcp_proxy;
  access = new_broker.access;
  http_clients = [];
  audit_writer = none;
}

match_intent-Answers_example :
    Answers ascii broker "coder"
      (codes "commit")
      (match_intent ascii broker "coder" (codes "commit"))
match_intent-Answers_example = match_intent-Answers ascii broker "coder" (codes "commit")
