-- ===== src/Topology/Accepted.antt =====
-- What `TopologySnapshot::new_with_timings` of crates/hashring-core/src/topology.rs builds passes
-- `TopologySnapshot::validate`.
use hashring_rs.Prelude.{ℕ, ◌≡◌, sym, ap, ◌∙◌, subst, List, ok}
use hashring_rs.Prelude.Sort.{sort, sort_sorted, sort-IsSorted}
use hashring_rs.Topology.Types.{Member, TopologySnapshot, TopologyConfig, ClusterTimings}
use hashring_rs.Topology.Build.{Hashing, member_leb, assemble, new_with_timings, validate}
use hashring_rs.Topology.Members.{IsMembership-sort}
use hashring_rs.Topology.Canonical.{
  IsBuildable, member_leb_total, member_leb_trans, new_with_timings-ok,
}
use hashring_rs.Topology.Validity.{rebuild, validate_iff}

IsBuildable-sort :
    (vnodes : ℕ) (c : TopologyConfig) (timings : ClusterTimings) (ms : List Member)
    → IsBuildable vnodes c timings ms
    → IsBuildable vnodes c timings (sort member_leb ms)
IsBuildable-sort vnodes c timings ms b = record {
  membership = IsMembership-sort member_leb ms vnodes b.membership;
  config_ok = b.config_ok;
  timings_ok = b.timings_ok;
}

-- Every snapshot that `new_with_timings` builds is one that `validate` accepts.
pub new_with_timings-validate :
    (h : Hashing) (epoch seed vnodes : ℕ) (ms : List Member) (c : TopologyConfig)
    (timings : ClusterTimings) (s : TopologySnapshot)
    → new_with_timings h epoch seed vnodes ms c timings ≡ ok s
    → validate h s ≡ ok tt
unfolding assemble
new_with_timings-validate h epoch seed vnodes ms c timings s e =
    let (b, made) = (new_with_timings-ok h epoch seed vnodes c timings ms s).0 e in
    let ordered =
      sort_sorted member_leb (sort member_leb ms)
        (sort-IsSorted member_leb member_leb_total member_leb_trans ms) in
    let again = (new_with_timings-ok h epoch seed vnodes c timings (sort member_leb ms) s).1 (
      IsBuildable-sort vnodes c timings ms b,
      ap (λ l. assemble h epoch seed vnodes l c timings) ordered ∙ made,
    ) in
    (validate_iff h s).1 (subst (λ r. rebuild h r ≡ ok r) made (again ∙ ap ok (sym made)))
