-- ===== src/Soc/Boot.antt =====
-- The constructor in validator/riscv/rv_validator.cc as a whole: the tags of the registers from the policy,
-- and the tag bus from the SOC document of validator/src/soc_tag_configuration.cc.
use hope_policy_engine.Prelude.{
  ℕ, replicate, ◌≡◌, refl, subst, ◌⊎◌, List, [], ◌∷◌, some, Bool-cases, inl, inr,
}
use hope_policy_engine.RuleCache.Interface.{RuleCache}
use hope_policy_engine.Tags.Provider.Laws.{Covers, new_ram-Covers}
use hope_policy_engine.Tags.Bus.{Bus, add_provider}
use hope_policy_engine.Tags.Bus.Lookup.{AllCover, All-add}
use hope_policy_engine.Validator.State.{Platform}
use hope_policy_engine.Validator.Validate.{Validator}
use hope_policy_engine.Validator.Session.{Good}
use hope_policy_engine.Validator.Construct.{InitialTags, zero_register, construct, construct-Good}
use hope_policy_engine.Factory.{Factory}
use hope_policy_engine.Factory.Lookup.{meaning, Agrees}
use hope_policy_engine.Factory.Apply.{SameNames}
use hope_policy_engine.Factory.MetaSets.{
  initial_tags, StandsFor-Extends, ZeroStandsFor-Extends, Extends, SameNames-trans, Named,
  initial_tags-Named,
}
use hope_policy_engine.Factory.Yaml.{Node, mapping, Pairs, field}
use hope_policy_engine.Soc.{SocElement, Config, configured, ◌>>=◌, provider_of, apply, read_soc}
use hope_policy_engine.Soc.Describes.{
  bind-eq-configured, configured_inj, Described, Described-same, read_soc-Described,
}

-- Every vector covers its provider.
apply-AllCover : (es : List SocElement) (bus : Bus) → AllCover bus → AllCover (apply es bus)
unfolding apply provider_of
apply-AllCover [] bus h = h
apply-AllCover (e ∷ es) bus h = apply-AllCover es (add_provider e.start (provider_of e) bus) (
    All-add (λ x. Covers x.provider) e.start (provider_of e) bus
      (elim (Bool-cases e.heterogeneous) [
        | inl many ↦ rw (many) (new_ram-Covers _ e.tag e.word_size e.tag_granularity)
        | inr one ↦ rw (one) tt
      ])
      h)

module _ (p : Platform) (ms_bit_add : p.MetaSet → ℕ → p.MetaSet) where
  Named-Extends :
      (f : Factory) (sets sets' : List p.MetaSet) (tags : InitialTags)
      → Extends p ms_bit_add sets sets'
      → Named p ms_bit_add f sets tags
      → Named p ms_bit_add f sets' tags
  Named-Extends f sets sets' tags more named = record {
    reg_default =
        StandsFor-Extends p ms_bit_add sets sets' (meaning f "ISA.RISCV.Reg.Default")
          tags.reg_default more named.reg_default;
    reg_zero =
        ZeroStandsFor-Extends p ms_bit_add sets sets' (meaning f "ISA.RISCV.Reg.RZero")
          tags.reg_zero more named.reg_zero;
    csr_default =
        StandsFor-Extends p ms_bit_add sets sets' (meaning f "ISA.RISCV.CSR.Default")
          tags.csr_default more named.csr_default;
    env =
        StandsFor-Extends p ms_bit_add sets sets' (meaning f "ISA.RISCV.Reg.Env") tags.env more
          named.env;
  }

module _ (p : Platform) (c : RuleCache) (ms_bit_add : p.MetaSet → ℕ → p.MetaSet) where
  -- the constructor, on the factory and the metadata sets that its bases have made; with the validator, what
  -- it leaves of the factory
  unfoldable pub boot :
      ℕ → Node → Factory → List p.MetaSet → Validator p c → Config (Validator p c × Factory)
  boot xlen soc f sets before =
      let t = initial_tags p ms_bit_add f sets in
      do
        r ← read_soc p ms_bit_add soc xlen t.1 t.2
        configured (construct p c xlen t.0 (apply r.0 []) r.2 before, r.1)

  -- A good validator, whose tags stand for their names: those of the registers and the program counter, and
  -- those of the elements that the bus is made of.
  pub record Booted (pairs : Pairs) (f : Factory) (s : Validator p c) : Type 0 where
    pub tags : InitialTags
    pub elements : List SocElement
    pub good : Good p c s
    pub named : Named p ms_bit_add f s.ms_cache tags
    pub regs : s.ireg_tags ≡ zero_register tags.reg_zero (replicate 32 tags.reg_default)
    pub csrs : s.csr_tags ≡ replicate 4096 tags.csr_default
    pub pc : s.pc_tag ≡ tags.env
    pub bus : s.tag_bus ≡ apply elements []
    pub described : Described p ms_bit_add f s.ms_cache pairs elements

  -- For both register widths, with a `path_map` that has what the names stand for and a SOC document that is
  -- read: the constructed validator is good. Its tags of the registers, the CSRs and the program counter
  -- stand among its metadata sets for their names, and its bus is that of elements with the addresses of the
  -- document's nodes and tags that stand for their names.
  pub boot-Booted :
      (xlen : ℕ) (soc : Node) (pairs : Pairs) (f : Factory) (sets : List p.MetaSet)
      (before : Validator p c) (r : Validator p c × Factory)
      → (xlen ≡ 32) ⊎ (xlen ≡ 64)
      → Agrees f
      → field "SOC" soc ≡ some (some (mapping pairs))
      → boot xlen soc f sets before ≡ configured r
      → Booted pairs f r.0 × SameNames f r.1
  unfolding boot construct
  boot-Booted xlen soc pairs f sets before r width agrees listed h =
      let t = initial_tags p ms_bit_add f sets in
      let (named, same) = initial_tags-Named p ms_bit_add f sets agrees in
      let (q, taken, h') = bind-eq-configured (read_soc p ms_bit_add soc xlen t.1 t.2) _ h in
      let (described, same', more) =
        read_soc-Described p ms_bit_add soc pairs xlen t.1 t.2 q same.0 listed taken in
      subst (λ z. Booted pairs f z.0 × SameNames f z.1) (configured_inj h')
        (
          record {
            tags = t.0;
            elements = q.0;
            good =
                construct-Good p c xlen t.0 (apply q.0 []) q.2 before width
                  (apply-AllCover q.0 [] tt);
            named = Named-Extends p ms_bit_add f t.2 q.2 t.0 more named;
            regs = refl;
            csrs = refl;
            pc = refl;
            bus = refl;
            described = Described-same p ms_bit_add f t.1 q.2 pairs q.0 same.1 described;
          },
          SameNames-trans p ms_bit_add f t.1 q.1 same same',
        )
