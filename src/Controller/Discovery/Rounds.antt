-- ===== src/Controller/Discovery/Rounds.antt =====
-- What a round of `DiscoveryController.Reconcile` does with all its connectors.
use mathlib.Core.List.{append_assoc, append-nil}
use fluxgate_operator.Prelude.{
  ◌*◌, List, [], ◌∷◌, ◌++◌, length, Result, Result-cases, value_or, ok, err, String, pos, ◌≡◌, refl,
  sym, ap, ◌∙◌, inl, inr,
}
use fluxgate_operator.Connector.Types.{PipelineConnector, PipelineSource}
use fluxgate_operator.Platform.{Platform, NamespacedName, requeue, minute}
use fluxgate_operator.Platform.World.{World, MetricUpdate, pipelines_discovered}
use fluxgate_operator.Controller.Discovery.{
  Registry, register_all, discover_by, discover_all, reconcile,
}

register_all-append :
    (xs ys : List PipelineSource) (r : Registry)
    → register_all (xs ++ ys) r ≡ register_all ys (register_all xs r)
unfolding register_all
register_all-append [] ys r = refl
register_all-append (x ∷ xs) ys r = register_all-append xs ys _

module _ (P : Platform) (ns : String) where
  -- What the connectors find at a state, in the order of the connectors; one that fails finds nothing.
  abbrev pub found : List (PipelineConnector P.State) → P.State → List PipelineSource
  found [] s = []
  found (conn ∷ conns) s = value_or [] (conn.discover s ns) ++ found conns s

  abbrev pub gauge_of : PipelineConnector P.State → Result (List PipelineSource) → List MetricUpdate
  gauge_of conn (err e) = []
  gauge_of conn (ok sources) = pipelines_discovered conn.name (length sources) ∷ []

  -- The gauge of each connector that does not fail.
  abbrev pub gauges : List (PipelineConnector P.State) → P.State → List MetricUpdate
  gauges [] s = []
  gauges (conn ∷ conns) s = gauge_of conn (conn.discover s ns) ++ gauges conns s

  -- The world after the sources were registered and the gauges set.
  abbrev pub with_found : List PipelineSource → List MetricUpdate → World P → World P
  with_found sources ms w = record w {
    registry = register_all sources w.registry;
    metrics = w.metrics ++ ms;
  }

  discover_by-found :
      (conn : PipelineConnector P.State) (w : World P)
      → discover_by P conn ns w
        ≡ with_found
            (value_or [] (conn.discover w.api ns))
            (gauge_of conn (conn.discover w.api ns))
            w
  unfolding register_all discover_by
  discover_by-found conn w = elim (Result-cases (conn.discover w.api ns)) [
    | inl (e, h) ↦
        rw (h, discover_by) (ap (λ ms. record w { metrics = ms }) (sym (append-nil w.metrics)))
    | inr (sources, h) ↦ rw (h, discover_by) refl
  ]

  with_found-with_found :
      (xs ys : List PipelineSource) (ms ns' : List MetricUpdate) (w : World P)
      → with_found ys ns' (with_found xs ms w) ≡ with_found (xs ++ ys) (ms ++ ns') w
  with_found-with_found xs ys ms ns' w =
      rw (register_all-append xs ys w.registry, append_assoc w.metrics ms ns')

  discover_all-found :
      (conns : List (PipelineConnector P.State)) (w : World P)
      → discover_all P conns ns w ≡ with_found (found conns w.api) (gauges conns w.api) w
  unfolding discover_all register_all
  discover_all-found [] w = ap (λ ms. record w { metrics = ms }) (sym (append-nil w.metrics))
  discover_all-found (conn ∷ conns) w =
      let xs = value_or [] (conn.discover w.api ns) in
      let ms = gauge_of conn (conn.discover w.api ns) in
      ap (discover_all P conns ns) (discover_by-found conn w)
      ∙ discover_all-found conns (with_found xs ms w)
      ∙ with_found-with_found xs (found conns w.api) ms (gauges conns w.api) w

-- A round of discovery, whichever connectors fail: nothing of the cluster is changed; the registry is
-- the one before with the sources that the connectors find, in the order of the connectors and a failing
-- one finding none, registered one after the other; the gauge of each connector that did not fail is
-- set to the number of its sources; and the next round is in five minutes, with no error.
pub reconcile-with_found :
    (P : Platform) (conns : List (PipelineConnector P.State)) (nn : NamespacedName) (w : World P)
    → reconcile P conns nn w ≡ (
      ok (requeue (pos (5 * minute))),
      with_found P nn.namespace
          (found P nn.namespace conns w.api)
          (gauges P nn.namespace conns w.api)
          w,
    )
unfolding reconcile
reconcile-with_found P conns nn w =
    ap (λ v. (ok (requeue (pos (5 * minute))), v)) (discover_all-found P nn.namespace conns w)
