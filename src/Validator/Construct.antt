-- ===== src/Validator/Construct.antt =====
-- The constructor of `rv_validator_t`, validator/riscv/rv_validator.cc. What the metadata factory and the
-- SOC configuration give is its arguments: the tags, the bus and the metadata sets.
use hope_policy_engine.Prelude.{
  ℕ, true, false, ◌≡◌, refl, ◌⊎◌, List, [], Option, none, some, set, replicate, length, length-set,
}
use hope_policy_engine.Isa.{bad_tag_value}
use hope_policy_engine.RuleCache.Interface.{RuleCache}
use hope_policy_engine.Tags.Bus.{Bus}
use hope_policy_engine.Tags.Bus.Lookup.{AllCover}
use hope_policy_engine.Validator.State.{Platform}
use hope_policy_engine.Validator.Validate.{Validator}
use hope_policy_engine.Validator.Session.{Good}

-- "ISA.RISCV.Reg.Default", "ISA.RISCV.Reg.RZero" if it exists, "ISA.RISCV.CSR.Default" and
-- "ISA.RISCV.Reg.Env"
pub record InitialTags : Type 0 where
  pub reg_default : ℕ
  pub reg_zero : Option ℕ
  pub csr_default : ℕ
  pub env : ℕ

-- `ireg_tags[0] = ...` if the metadata set exists
unfoldable pub zero_register : Option ℕ → List ℕ → List ℕ
zero_register none tags = tags
zero_register (some t) tags = set tags 0 t

length-zero_register : (o : Option ℕ) (tags : List ℕ) → length (zero_register o tags) ≡ length tags
unfolding zero_register
length-zero_register none tags = refl
length-zero_register (some t) tags = length-set tags 0 t

module _ (p : Platform) (c : RuleCache) where
  -- The fields that the constructor does not set have what stood in the memory before.
  unfoldable pub construct : ℕ → InitialTags → Bus → List p.MetaSet → Validator p c → Validator p c
  construct xlen tags bus sets before = record before {
    xlen = xlen;
    tag_bus = bus;
    ms_cache = sets;
    has_insn_mem_addr = false;
    res = record {
      pc = bad_tag_value;
      rd = bad_tag_value;
      csr = bad_tag_value;
      pc_result = true;
      rd_result = true;
      csr_result = true;
    };
    pc_tag = tags.env;
    ireg_tags = zero_register tags.reg_zero (replicate 32 tags.reg_default);
    csr_tags = replicate 4096 tags.csr_default;
    watch_pc = false;
    watch_regs = [];
    watch_csrs = [];
    watch_addrs = [];
    failed = false;
    rule_cache = none;
    rule_cache_hits = 0;
    rule_cache_misses = 0;
  }

  -- For both register widths and a bus whose vectors cover their providers, the constructed validator is
  -- good, whatever the memory held before.
  pub construct-Good :
      (xlen : ℕ) (tags : InitialTags) (bus : Bus) (sets : List p.MetaSet) (before : Validator p c)
      → (xlen ≡ 32) ⊎ (xlen ≡ 64)
      → AllCover bus
      → Good p c (construct xlen tags bus sets before)
  unfolding construct
  construct-Good xlen tags bus sets before width covers = record {
    ready = record {
      width = width;
      regs = length-zero_register tags.reg_zero (replicate 32 tags.reg_default);
      csrs = refl;
      covers = covers;
    };
    cache_sound = tt;
  }
