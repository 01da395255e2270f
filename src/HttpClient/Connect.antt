-- ===== src/HttpClient/Connect.antt =====
-- `http_client_worktask_connecting` and `http_client_worktask_waiting_connect`.
use maestro_core.Base.{◌+◌, if◌then◌else◌}
use maestro_core.ErrorCode.{ErrorCode, success, err_in_progress}
use maestro_core.HttpClient.{waiting_connect, building_request, error, HttpClient, World, Step, to}
use maestro_core.HttpParser.Url.{url}
use maestro_core.Memory.{Mem}
use maestro_core.StringUtils.{contents}

-- After the URL is parsed into `parts`.
init_transport : ErrorCode → HttpClient → Mem → Step
init_transport success c m = to building_request c m
init_transport err_in_progress c m = to waiting_connect c m
init_transport _ c m = to error c m

connect_to : ErrorCode → HttpClient → World → Mem → Step
unfolding init_transport
connect_to success c w m =
    init_transport (w.transport_init c.url_parts c.timeout_ms c.blocking_mode) c m
connect_to _ c w m = to error c m

unfoldable pub worktask_connecting : HttpClient → World → Mem → Step
unfolding connect_to contents
worktask_connecting c w m =
    let parsed = url (contents c.url) in connect_to parsed.0 (record c { url_parts = parsed.1 }) w m

connect_result : ErrorCode → HttpClient → World → Mem → Step
connect_result success c w m = to building_request (record c { retries = 0 }) m
connect_result _ c w m =
    if w.connect_pending
    then to waiting_connect (record c { next_retry_at = w.now + 50 }) m
    else to error c m

unfoldable pub worktask_waiting_connect : HttpClient → World → Mem → Step
unfolding connect_result
worktask_waiting_connect c w m = connect_result w.transport_finish_connect c w m
