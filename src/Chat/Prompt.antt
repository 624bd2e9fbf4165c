-- ===== src/Chat/Prompt.antt =====
-- The texts that core/chat/engine.py gives to the language model.
use enterprise_doc_rag.Common.{String, ◌<>◌, Option, none, some, List, map}
use enterprise_doc_rag.Common.Text.{truthy, join, decimal}
use enterprise_doc_rag.Retrieval.Citations.{Citation}
use enterprise_doc_rag.Conversations.{MessageRole, ChatMessage, system, user, assistant}

-- `CHAT_SYSTEM_PROMPT`, by its four paragraphs.
abbrev pub chat_system_prompt : String
chat_system_prompt =
    "You are an enterprise document assistant. Answer the user's question using ONLY the numbered sources in the context below. Cite sources inline using their number, e.g. [1], [2]. If the sources don't contain the answer, say so explicitly rather than guessing.\n\nFormat the answer as markdown: use bullet or numbered lists when presenting multiple facts, steps, or values; use **bold** for key terms; use short paragraphs otherwise. Don't force structure onto a simple one-sentence answer.\n\nYou have a limited response budget, so budget for it: if several sources are relevant, prioritize the most directly relevant ones rather than covering every source exhaustively, and write concisely enough to finish your full answer, including a proper conclusion, within that budget. Never let your response run out mid-sentence or mid-thought -- a shorter, complete answer is always better than a longer one that cuts off unfinished."

abbrev pub role_value : MessageRole → String
role_value system = "system"
role_value user = "user"
role_value assistant = "assistant"

abbrev pub history_line : ChatMessage → String
history_line m = role_value m.role <> (": " <> m.content)

-- `CONDENSE_PROMPT_TEMPLATE.format(history=…, question=…)`
abbrev pub condense_prompt : List ChatMessage → String → String
condense_prompt history question =
    "Given the conversation history and a follow-up question, rewrite the follow-up question as a standalone question that captures all necessary context from the history. If it's already standalone, return it unchanged. Respond with only the rewritten question.\n\nChat history:\n"
    <> (join "\n" (map history_line history)
        <> ("\n\nFollow-up question: " <> (question <> "\nStandalone question:")))

-- The first of several optional texts that is there and not empty.
abbrev pub or_else : Option String → Option String → Option String
or_else none other = other
or_else (some text) other = some text

abbrev pub prefixed : String → Option String → Option String
prefixed prefix none = none
prefixed prefix (some text) = some (prefix <> text)

abbrev pub location_part : Option String → String
location_part none = ""
location_part (some location) = ", " <> location

abbrev pub source_of : Option String → String
source_of none = "unknown source"
source_of (some file) = file

module _ {Score : Type 0} where
  abbrev pub location_label : Citation Score → Option String
  location_label c =
      or_else (prefixed "page " (truthy c.page_label))
        (or_else (prefixed "slide " (truthy c.slide_number)) (truthy c.section_title))

  abbrev pub context_entry : Citation Score → String
  context_entry c =
      "["
      <> (decimal c.index
          <> ("] (Source: "
              <> (source_of (truthy c.source_file)
                  <> (location_part (location_label c) <> (")\n" <> c.text)))))

  -- `_build_context_block`
  abbrev pub build_context_block : List (Citation Score) → String
  build_context_block cs = join "\n\n" (map context_entry cs)

  abbrev pub user_prompt : List (Citation Score) → String → String
  user_prompt cs question =
      "Context:\n" <> (build_context_block cs <> ("\n\nQuestion: " <> question))
