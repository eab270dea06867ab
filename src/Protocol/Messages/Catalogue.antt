-- ===== src/Protocol/Messages/Catalogue.antt =====
-- The plain structs of pkg/protocol/protocol.go together: each message with its tags.
use uni_chat_sdk.Prelude.{Option}
use uni_chat_sdk.Prelude.Time.{Rfc3339, IsRfc3339}
use uni_chat_sdk.Json.Values.{Value}
use uni_chat_sdk.Json.Structs.{Struct, encode_struct, decode_struct}
use uni_chat_sdk.Protocol.Messages.Items.{
  SyncError, reaction_detail_struct, check_item_struct, sync_error_struct,
}
use uni_chat_sdk.Protocol.Messages.Checks.{
  CheckData, CheckArgs, CheckCursorsArgs, SyncData, AckArgs, check_data_struct, check_args_struct,
  check_cursors_args_struct, sync_data_struct, ack_args_struct,
}
use uni_chat_sdk.Protocol.Messages.Channels.{
  PostArgs, PostData, WatchArgs, WatchListData, ChannelsArgs, ChannelInfo, ChannelsData,
  post_args_struct, post_data_struct, watch_args_struct, watch_list_data_struct,
  channels_args_struct, channel_info_struct, channels_data_struct,
}
use uni_chat_sdk.Protocol.Messages.History.{
  HistoryData, SearchItem, SearchError, SearchData, history_data_struct, search_item_struct,
  search_error_struct, search_data_struct,
}
use uni_chat_sdk.Protocol.Messages.Posts.{
  SendArgs, SendData, ReactArgs, ReactData, EditArgs, EditData, GetPostData, DeleteArgs, DeleteData,
  send_args_struct, send_data_struct, react_args_struct, react_data_struct, edit_args_struct,
  edit_data_struct, get_post_args_struct, get_post_data_struct, delete_args_struct,
  delete_data_struct,
}
use uni_chat_sdk.Protocol.Messages.Ranges.{
  DeleteRangeSummaryArgs, DeleteRangeChunkArgs, DeleteRangeSummaryData,
  delete_range_summary_args_struct, delete_range_chunk_args_struct,
  delete_range_summary_data_struct,
}
use uni_chat_sdk.Protocol.Messages.Targets.{
  DeleteTarget, DeleteRangeChunkData, DeletePreviewData, delete_target_struct,
  delete_range_chunk_data_struct, delete_preview_data_struct,
}
use uni_chat_sdk.Protocol.Messages.Batches.{
  DeleteBatchError, DeleteBatchData, delete_batch_error_struct, delete_batch_data_struct,
}
use uni_chat_sdk.Protocol.Messages.Jobs.{
  DeleteJobScope, DeleteJobStartArgs, DeleteJobStatus, DeleteJobStartData, DeleteJobIdArgs,
  delete_job_scope_struct, delete_job_start_args_struct, delete_job_status_struct,
  delete_job_start_data_struct, delete_job_id_args_struct,
}
use uni_chat_sdk.Protocol.Messages.Engines.{
  StatusData, PollIntervalArgs, EngineStatusData, CapabilitiesArgs, CapabilityReason,
  CapabilityInfo, EngineCapabilitiesData, CapabilitiesData, status_data_struct,
  poll_interval_args_struct, engine_status_data_struct, capabilities_args_struct,
  capability_reason_struct, capability_info_struct, engine_capabilities_data_struct,
  capabilities_data_struct,
}
use uni_chat_sdk.Protocol.Types.{ReactionDetail, CheckItem}
use uni_chat_sdk.Protocol.Payload.{GetPostArgs}

pub data Message : Type 0 → Type 1 where
  of_reaction_detail : Message ReactionDetail
  of_check_item : Message CheckItem
  of_sync_error : Message SyncError
  of_check_data : Message CheckData
  of_check_args : Message CheckArgs
  of_check_cursors_args : Message CheckCursorsArgs
  of_sync_data : Message SyncData
  of_ack_args : Message AckArgs
  of_post_args : Message PostArgs
  of_post_data : Message PostData
  of_watch_args : Message WatchArgs
  of_watch_list_data : Message WatchListData
  of_channels_args : Message ChannelsArgs
  of_channel_info : Message ChannelInfo
  of_channels_data : Message ChannelsData
  of_history_data : Message HistoryData
  of_search_item : Message SearchItem
  of_search_error : Message SearchError
  of_search_data : Message SearchData
  of_send_args : Message SendArgs
  of_send_data : Message SendData
  of_react_args : Message ReactArgs
  of_react_data : Message ReactData
  of_edit_args : Message EditArgs
  of_edit_data : Message EditData
  of_get_post_args : Message GetPostArgs
  of_get_post_data : Message GetPostData
  of_delete_args : Message DeleteArgs
  of_delete_data : Message DeleteData
  of_delete_range_summary_args : Message DeleteRangeSummaryArgs
  of_delete_range_chunk_args : Message DeleteRangeChunkArgs
  of_delete_range_summary_data : Message DeleteRangeSummaryData
  of_delete_target : Message DeleteTarget
  of_delete_range_chunk_data : Message DeleteRangeChunkData
  of_delete_preview_data : Message DeletePreviewData
  of_delete_batch_error : Message DeleteBatchError
  of_delete_batch_data : Message DeleteBatchData
  of_delete_job_scope : Message DeleteJobScope
  of_delete_job_start_args : Message DeleteJobStartArgs
  of_delete_job_status : Message DeleteJobStatus
  of_delete_job_start_data : Message DeleteJobStartData
  of_delete_job_id_args : Message DeleteJobIdArgs
  of_status_data : Message StatusData
  of_poll_interval_args : Message PollIntervalArgs
  of_engine_status_data : Message EngineStatusData
  of_capabilities_args : Message CapabilitiesArgs
  of_capability_reason : Message CapabilityReason
  of_capability_info : Message CapabilityInfo
  of_engine_capabilities_data : Message EngineCapabilitiesData
  of_capabilities_data : Message CapabilitiesData

module _ (clock : Rfc3339) (clock_ok : IsRfc3339 clock) where
  unfoldable pub struct : {T : Type 0} → Message T → Struct T
  struct of_reaction_detail = reaction_detail_struct
  struct of_check_item = check_item_struct
  struct of_sync_error = sync_error_struct
  struct of_check_data = check_data_struct
  struct of_check_args = check_args_struct
  struct of_check_cursors_args = check_cursors_args_struct
  struct of_sync_data = sync_data_struct
  struct of_ack_args = ack_args_struct
  struct of_post_args = post_args_struct
  struct of_post_data = post_data_struct
  struct of_watch_args = watch_args_struct
  struct of_watch_list_data = watch_list_data_struct
  struct of_channels_args = channels_args_struct
  struct of_channel_info = channel_info_struct
  struct of_channels_data = channels_data_struct
  struct of_history_data = history_data_struct
  struct of_search_item = search_item_struct clock clock_ok
  struct of_search_error = search_error_struct
  struct of_search_data = search_data_struct clock clock_ok
  struct of_send_args = send_args_struct
  struct of_send_data = send_data_struct
  struct of_react_args = react_args_struct
  struct of_react_data = react_data_struct
  struct of_edit_args = edit_args_struct
  struct of_edit_data = edit_data_struct
  struct of_get_post_args = get_post_args_struct
  struct of_get_post_data = get_post_data_struct
  struct of_delete_args = delete_args_struct
  struct of_delete_data = delete_data_struct
  struct of_delete_range_summary_args = delete_range_summary_args_struct clock clock_ok
  struct of_delete_range_chunk_args = delete_range_chunk_args_struct clock clock_ok
  struct of_delete_range_summary_data = delete_range_summary_data_struct
  struct of_delete_target = delete_target_struct
  struct of_delete_range_chunk_data = delete_range_chunk_data_struct
  struct of_delete_preview_data = delete_preview_data_struct
  struct of_delete_batch_error = delete_batch_error_struct
  struct of_delete_batch_data = delete_batch_data_struct
  struct of_delete_job_scope = delete_job_scope_struct clock clock_ok
  struct of_delete_job_start_args = delete_job_start_args_struct clock clock_ok
  struct of_delete_job_status = delete_job_status_struct clock clock_ok
  struct of_delete_job_start_data = delete_job_start_data_struct clock clock_ok
  struct of_delete_job_id_args = delete_job_id_args_struct
  struct of_status_data = status_data_struct
  struct of_poll_interval_args = poll_interval_args_struct
  struct of_engine_status_data = engine_status_data_struct
  struct of_capabilities_args = capabilities_args_struct
  struct of_capability_reason = capability_reason_struct
  struct of_capability_info = capability_info_struct
  struct of_engine_capabilities_data = engine_capabilities_data_struct
  struct of_capabilities_data = capabilities_data_struct

  -- json.Marshal and json.Unmarshal into a fresh variable; `none` is an error.
  abbrev pub marshal : {T : Type 0} → Message T → T → Option Value
  marshal m = encode_struct (struct m)

  abbrev pub unmarshal : {T : Type 0} → Message T → Value → Option T
  unmarshal m = decode_struct (struct m)
