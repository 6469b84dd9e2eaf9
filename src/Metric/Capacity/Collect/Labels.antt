-- ===== src/Metric/Capacity/Collect/Labels.antt =====
-- The labels of a sum that spans several arrays: `cumulate` keeps those of the record that came first.
use csm_metrics_powermax.Prelude.{
  subst, ℕ, Text, text_eq, text_eq_refl, ◌≡◌, ◌<◌, refl, ap, ◌∙◌, List, [], ◌∷◌, Option, some,
  filter,
}
use csm_metrics_powermax.Prelude.Dict.{Dict, lookup}
use csm_metrics_powermax.Prelude.Float.{Float64}
use csm_metrics_powermax.K8s.Volumes.{VolumeInfo}
use csm_metrics_powermax.Metric.Fanout.{Phase, Pool}
use csm_metrics_powermax.Metric.Fanout.Order.{MayBeFirst, either_first}
use csm_metrics_powermax.Metric.Types.{PowerMaxArray}
use csm_metrics_powermax.Metric.Capacity.Collect.{CapacityReach, capacity_work, empty_capacity}
use csm_metrics_powermax.Metric.Capacity.Cumulate.{
  Metric, cumulate_stream, cumulate_stream_lem, no_metrics, sum_for, sum_onto,
}
use csm_metrics_powermax.Metric.Capacity.Group.{group_volumes}

module _ {F : Type 0} (fl : Float64 F) where
  -- Some schedule ends with a sum for the storage class that is labelled with the array.
  abbrev pub MayBeLabelled :
      ℕ → Option (Dict (List (PowerMaxArray F))) → List VolumeInfo → Text → Text → Type 0
  MayBeLabelled limit clients pvs class array_id =
      (s : Pool (Text × List VolumeInfo) (Metric fl)) × CapacityReach fl limit clients pvs s
      × (s.phase ≡ Phase.closed)
      × ((m : Metric fl) × (lookup class
              (cumulate_stream fl (no_metrics fl) s.sent).storage_class_map
            ≡ some m)
          × (m.array_id ≡ array_id))

  -- The first record of a class gives the sum its labels.
  first_of_class :
      (a : Metric fl) (rest : List (Metric fl))
      → (m : Metric fl) × (sum_for fl (λ x. x.storage_class) a.storage_class (a ∷ rest) ≡ some m)
        × (m.array_id ≡ a.array_id)
  first_of_class a rest =
      rw (text_eq_refl a.storage_class)
        (sum_onto fl a (filter (λ x. text_eq x.storage_class a.storage_class) rest), refl, refl)

  labelled :
      (limit : ℕ) (clients : Option (Dict (List (PowerMaxArray F)))) (pvs : List VolumeInfo)
      (a : Metric fl)
      → MayBeFirst limit (capacity_work fl clients) (empty_capacity fl) (group_volumes [] pvs) a
      → MayBeLabelled limit clients pvs a.storage_class a.array_id
  labelled limit clients pvs a (s, r, c, (rest, e)) =
      let (m, f, l) = first_of_class a rest in
      (
        s,
        r,
        c,
        (
          m,
          (cumulate_stream_lem fl s.sent a.storage_class).1
              ∙ ap (λ rs. sum_for fl (λ x. x.storage_class) a.storage_class rs) e
              ∙ f,
          l,
        ),
      )

  -- If the volumes of one storage class lie on two arrays, its sum over both carries the name of
  -- one of them alone, and which it is, the scheduler decides: with two connections, if the first
  -- records of the two arrays are of that class, there is a schedule for either name.
  pub class_label_by_schedule :
      (limit : ℕ) (clients : Option (Dict (List (PowerMaxArray F)))) (pvs : List VolumeInfo)
      (i j : Text × List VolumeInfo) (jobs : Dict (List VolumeInfo)) (a b : Metric fl)
      (as' bs : List (Metric fl))
      → 1 < limit
      → group_volumes [] pvs ≡ i ∷ j ∷ jobs
      → capacity_work fl clients i ≡ a ∷ as'
      → capacity_work fl clients j ≡ b ∷ bs
      → b.storage_class ≡ a.storage_class
      → MayBeLabelled limit clients pvs a.storage_class a.array_id
        × MayBeLabelled limit clients pvs a.storage_class b.array_id
  class_label_by_schedule limit clients pvs i j jobs a b as' bs h g e f same =
      let (p, q) =
        either_first limit (capacity_work fl clients) (empty_capacity fl) h i j jobs a b as' bs e
          f in
      (
        labelled limit clients pvs a (rw g p),
        subst (λ class. MayBeLabelled limit clients pvs class b.array_id) same
            (labelled limit clients pvs b (rw g q)),
      )
