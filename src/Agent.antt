-- ===== src/Agent.antt =====
-- The bounds that src/leetcode_coach/agent/orchestrator.py puts on an agent run: its settings, what
-- its tools hand out, and how often it may ask the advisor.
pub mod Bounds
use leetcode_coach_service.Base.{
  ℕ, zero, suc, Bool, true, false, List, [], ◌∷◌, ◌&&◌, ◌||◌, ◌==◌, nat_eq, not, leb, take,
  if◌then◌else◌,
}
use leetcode_coach_service.Text.{Text, codes, text_eq}

-- A value that a tool returns. A scalar is `None`, a Boolean or a number, given by its text, and
-- `other` is a value of any other class, given by its `str`.
mutual
  pub data Value : Type 0 where
    text : Text → Value
    items : Values → Value
    fields : Fields → Value
    scalar : Text → Value
    other : Text → Value

  pub data Values : Type 0 where
    none_left : Values
    item : Value → Values → Values

  pub data Fields : Type 0 where
    no_field : Fields
    field : Text → Value → Fields → Fields

-- The defaults of `_bounded`.
abbrev pub max_items : ℕ
max_items = 30

abbrev pub max_text : ℕ
max_text = 4000

-- `_bounded`: the first items of a list, tuple or dictionary, and the first characters of a text.
unfoldable mutual
  pub bounded : Value → Value
  bounded (text t) = text (take max_text t)
  bounded (items vs) = items (bounded_items max_items vs)
  bounded (fields fs) = fields (bounded_fields max_items fs)
  bounded (scalar t) = scalar t
  bounded (other t) = text (take max_text t)

  pub bounded_items : ℕ → Values → Values
  bounded_items zero vs = none_left
  bounded_items (suc n) none_left = none_left
  bounded_items (suc n) (item v vs) = item (bounded v) (bounded_items n vs)

  pub bounded_fields : ℕ → Fields → Fields
  bounded_fields zero fs = no_field
  bounded_fields (suc n) no_field = no_field
  bounded_fields (suc n) (field key v fs) = field key (bounded v) (bounded_fields n fs)

pub record AgentSettings : Type 0 where
  pub terra_model : Text
  pub sol_model : Text
  pub max_turns : ℕ
  pub max_read_tool_concurrency : ℕ
  pub prompt_cache_ttl : Text

-- `__post_init__`: `false` is the `ValueError`.
unfoldable pub accepts : AgentSettings → Bool
accepts s =
    (leb 1 s.max_turns && leb s.max_turns 32)
    && ((leb 1 s.max_read_tool_concurrency && leb s.max_read_tool_concurrency 3)
        && s.prompt_cache_ttl == codes "30m")
