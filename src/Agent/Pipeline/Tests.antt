-- ===== src/Agent/Pipeline/Tests.antt =====
-- Pipeline information of the small agent.
use esnet_smartnic_fw.Base.{◌≡◌, refl, [], ◌∷◌, none, some}
use esnet_smartnic_fw.Base.Int.{pos, negsuc}
use esnet_smartnic_fw.Agent.Errors.{ErrorCode}
use esnet_smartnic_fw.Agent.Effect.{Writes}
use esnet_smartnic_fw.Agent.Device.{State}
use esnet_smartnic_fw.Agent.Ids.Laws.{each_pipeline}
use esnet_smartnic_fw.Agent.Pipeline.{masks_number, table_message, get_pipeline_info}
use esnet_smartnic_fw.Agent.Pipeline.Laws.{
  table_of, without_aliases, read_back, get_pipeline_info-describes, table_of-message,
}
use esnet_smartnic_fw.Agent.Example.{Log, routes, devices}

routes-masks : masks_number routes.mode routes.num_masks ≡ routes.num_masks
unfolding masks_number
routes-masks = refl

table_of-message_example : table_of (table_message routes) ≡ routes
table_of-message_example = table_of-message routes (tt, tt, routes-masks, (tt, tt))

get_pipeline_info-describes_example :
    Writes {S = State Log} read_back
      (get_pipeline_info devices (record { dev_id = negsuc 0; pipeline_id = pos 0 }))
      (each_pipeline devices
        (negsuc 0)
        (pos 0)
        (λ err d. (err, d, 0, none))
        λ d p pipeline. (ErrorCode.ok, d, p, some (without_aliases pipeline.info)) ∷ [])
get_pipeline_info-describes_example =
    get_pipeline_info-describes {Hw = Log} devices
      (record { dev_id = negsuc 0; pipeline_id = pos 0 })
      (((((tt, tt, routes-masks, (tt, tt)), tt), (tt, tt)), tt), tt)
