-- ===== src/Shared/SampleNet.antt =====
-- For the tests, identifiers that differ, and a topology: nodes and connections in lists, without cycles.
use Prim.Native.String.{String}
use agent_setup.Base.{
  ℕ, zero, suc, ◌≡◌, refl, ap, Bool, not, List, [], ◌∷◌, ◌++◌, keep_if, any_of, map, ◌&&◌, false,
  true,
}
use agent_setup.Base.Eq.{◌==◌, text_eq}
use agent_setup.Types.Common.{NodeId}
use agent_setup.Types.Nodes.{Connection, MemoryUsage}
use agent_setup.Shared.Interface.{TopologyOps}

abbrev pub Lists : Type 0
Lists = List NodeId × List Connection

abbrev pub touches : NodeId → Connection → Bool
touches n c = n == c.source

abbrev pub list_net : TopologyOps
list_net = record {
  Topology = Lists;
  empty = ([], []);
  list_nodes = λ (t : Lists). t.0;
  add_node = λ (t : Lists) n. (t.0 ++ n ∷ [], t.1);
  remove_node =
      λ (t : Lists) n. (keep_if (λ j. not (j == n)) t.0, keep_if (λ c. not (touches n c)) t.1);
  add_connection = λ (t : Lists) c. (t.0, t.1 ++ c ∷ []);
  remove_connection = λ (t : Lists) c. (t.0, keep_if (λ d. not (touches c.source d)) t.1);
  replace_all_out_rdma_connections =
      λ (t : Lists) n cs. (t.0, keep_if (λ d. not (touches n d)) t.1 ++ cs);
  remove_all_rdma_connections_touching =
      λ (t : Lists) n. (t.0, keep_if (λ d. not (touches n d)) t.1);
  get_thunderbolt_bridge_cycles = λ t bridges network. [];
  get_cycles = λ (t : Lists). map (λ n. n ∷ []) t.0;
  get_subgraph_from_nodes = λ (t : Lists) ns. (keep_if (λ n. any_of (λ m. m == n) ns) t.0, []);
  get_all_connections_between = λ (t : Lists) n m.
      map (λ (c : Connection). c.edge)
        (keep_if (λ (c : Connection). c.source == n && c.sink == m) t.1);
  is_rdma_cycle = λ t cycle. false;
  node_is_leaf = λ t n. true;
}

abbrev pub some_memory : MemoryUsage
some_memory = record { ram_total = 16; ram_available = 8; swap_total = 0; swap_available = 0 }

-- Identifiers that differ.
abbrev pub counted : ℕ → String
counted zero = ""
counted (suc n) = String.◌∷◌ "r" (counted n)

pub counted-injective : (i j : ℕ) → counted i ≡ counted j → i ≡ j
counted-injective zero zero e = refl
counted-injective zero (suc j) e = absurd (cc)
counted-injective (suc i) zero e = absurd (cc)
counted-injective (suc i) (suc j) e = ap suc (counted-injective i j (cc))
