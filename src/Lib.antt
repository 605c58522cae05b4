-- ===== src/Lib.antt =====
-- Verification library of the policy engine: the RISC-V validator of validator/riscv, which follows a
-- simulated processor instruction by instruction, keeps a metadata tag for every register, CSR and
-- word of memory, and asks the generated policy code whether each instruction may run.
--
-- The program and the files that model it:
--   validator/riscv/inst_decoder.cc decodes an instruction word into its registers, immediate and
--     flags. Decoder has the instruction builders (Builders), a module for each group of its opcode
--     tables, and `decode` itself (Decode). A `switch` is `switch` of Switch on a list of cases, and
--     an instruction that is not recognised has the empty name, as in the code. Decoder/Range holds
--     the ranges that the validator needs of the result. An `int` is kept as its 32-bit pattern.
--   validator/include/policy-glue/riscv_isa.h holds the structures that the parts exchange: Isa.
--   validator/include/tag_utils.h keeps the tags of memory in providers behind a bus: Tags/Provider
--     and Tags/Bus. A `tag_t&` that the code returns is a location, read by `load` and written by
--     `store`; the exception out of range is `none`.
--   validator/riscv/meta_cache.cc gives each metadata set its tag: Tags/MetaCache. The type of the sets
--     is generated with the policy, and is a parameter with its comparison. Tags/Bus/NoMiss and InsnWrites
--     are about the tags that a write leaves on the bus.
--   validator/rule_cache has the caches of the rules that were evaluated. RuleCache/Interface is the
--     base class with the laws that the validator uses, RuleCache/Ideal and RuleCache/Finite are two of
--     its implementations, each of which fills the interface in its Laws, and RuleCache/Table stands
--     for `std::unordered_map`. Printed internal errors are counted in the state.
--   validator/rule_cache/dmhc_rule_cache is the third implementation, whose hash tables together give
--     the address of a rule: RuleCache/Dmhc. State has its tables, Cells its loops over them, Lookup,
--     Evict and Insert the functions of `dmhc_t`, and Cache the class `dmhc_rule_cache_t`. Fit, CellsFit,
--     Candidates, Safe, SafePlace and SafeInsert are about well-formed tables; Address, Hit and Fresh
--     about what a lookup finds. The hash functions are an argument of these; Hash has those of
--     compute_hash.cc, and HashBounds is about their range. An array of the caller that a call
--     overwrites (`consider_evict`) is passed on as the call leaves it. A cache that may keep a rule
--     under the operands of another one does not fill the interface of the validator.
--   validator/riscv/rv_validator.cc ties the parts together: Validator/State is the state of
--     `rv_validator_t`, Validator/Prepare has `setup_validation` and `prepare_eval`, Validator/Validate
--     both functions `validate`, `handle_violation` and `flush_rule_cache`, and Validator/Commit has
--     `commit`. An exception, an access outside an array and an end of the program in a rule cache
--     are faults of an outcome. Validator/Construct is the constructor, Validator/ApplyMetadata is
--     `apply_metadata`, and Validator/Session is the sequence of calls of the simulator as a step relation.
--     Validator/Live is about states from which every call returns.
--   validator/riscv/main.cc is what a simulator links with: Simulator has its entry points around the
--     flag DOA and the pointer to the validator, Simulator/Stopped the interface once DOA is set, and
--     Simulator/Progress the calls that return.
--   validator/src/metadata_factory.cc knows the tags of the policy by their names: Factory, whose maps
--     are association lists. Factory/Names has the names with dots, Factory/Lookup the lookups against
--     what a name stands for, Factory/Apply `apply_tags`, Factory/Opcodes `tag_opcodes`,
--     Factory/Load the constructor, where Load/Numbers and Load/Groups are about the numbers of names,
--     and Factory/MetaSets the class `meta_set_factory_t` of validator/riscv/meta_set_factory.cc.
--   validator/src/soc_tag_configuration.cc makes the tag bus from a document: Soc, with Soc/Elements and
--     Soc/Reads about the tags of the memory, Soc/Describes about the elements that are read, and Soc/Boot
--     with the constructor of `rv_validator_t` on such a document.
--   validator/src/opgroup_rule.cc matches an instruction against the rules of an opgroup:
--     Validator/Opgroup.
--   tagging_tools/range_map.cc and range.h keep the ranges of addresses of an image with the names of
--     their tags: Tagging/RangeMap.
--   tagging_tools/metadata_memory_map.cc keeps the tags of the words of an image in regions:
--     Tagging/MemoryMap, with Words and Region about a range that is added to a region, and Ranges the
--     iterator, where a null pointer is `none`. An index of type `int` is a number, so regions have at
--     most 2 ^ 31 words.
--   tagging_tools/metadata_index_map.h numbers the metadata of a map: Tagging/IndexMap.
--   tagging_tools/symbol_table.cc finds symbols by name and address: Tagging/SymbolTable, with Nearest about
--     `find_nearest`.
--   tagging_tools/uleb.h writes and reads numbers of variable length: Tagging/Uleb, on lists of bytes.
--   tagging_tools/tag_file.cc writes and reads the tag file of an image: Tagging/TagFile, where Write and
--     Read have the numbers and loops, Names the names of registers, Metadata the sets of tags, Save and
--     Load the two functions, and Coalesce `coalesce_ranges`. Sequences, Int32, Distinct, RoundTrip, Entries
--     and LoadSave are about what is saved and loaded. The tables of tagging_tools/register_name_map.h
--     are parameters. Its `save_metadata` and `load_metadata` are in Tagging/MetadataFile, whose loop
--     to the end of the file is on as many turns as there are bytes, of which each turn reads one.
-- Tests has the theorems at concrete inputs.
--
-- What the program is linked with is a parameter, the record `Platform` of Validator/State:
-- `eval_policy` of the generated policy code, as a function of its context, operands and results, the
-- metadata sets, and the simulator's translation of addresses. The reader of the registers is an
-- argument of the operations. The loop of `write_uleb` is on fuel, one more than the value, which
-- falls with every byte, and that of `write_uleb<int32_t>` on five steps, which are enough for a value
-- that is not negative; the loops of `log2`, `fold` and `compute_hash` are on the size, the width of a
-- field and the length of a table; that of `apply_metadata` over the words of a range on as many turns
-- as the range has addresses, each of which takes four; that of `tag_opcodes` on as many as the code has
-- bytes, each of which takes two or four; every other recursion is on a list or an index.
--
-- yaml-cpp, which reads the documents, is not modelled: a document is a tree of Factory/Yaml, in which a
-- scalar comes with what it converts to, and an exception of that library is a failure.
--
-- Not modelled: what is printed, apart from the counted messages; `config_rule_cache`, which recognises no name,
-- so the validator is modelled over any rule cache; the permutations of
-- validator/rule_cache/dmhc_rule_cache/perm4.c to perm7.c, which are data; the rest of tagging_tools,
-- which reads and writes files through libraries, and the failure of a stream; and in
-- validator/riscv/main.cc the two entry points that read files, and the messages.
pub mod Prelude
pub mod Isa
pub mod Decoder
pub mod RuleCache
pub mod Tags
pub mod Factory
pub mod Simulator
pub mod Validator
pub mod Soc
pub mod Tagging
pub mod Tests
