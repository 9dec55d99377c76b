-- ===== src/Lib.antt =====
-- Verification of the FIWARE IoT Agent for C++.
--
-- The agent receives measures and requests from devices over several transports, translates them, and
-- exchanges them with a context broker. Its HTTP requests pass filters (src/rest), devices and commands
-- are kept in caches in front of the store (src/util), and protocol modules read and write the frames
-- of the devices (src/modbus, src/ultra_light, src/mqtt, src/esp, src/thinkingthings). The development
-- covers the parts below, which the rest of the agent calls. The device cache stores the
-- records of Device, the command cache those of Command, and the translation of measures makes the
-- entities of Ngsi for a device; the other parts share the helpers of Common and no state.
--
-- Common: numbers are the native naturals, and a machine word keeps its wrap-around written out. A
--   std::string is the list of its bytes (Common.Strings), and a std::map an association list in the
--   order of its keys, whose operations stop where the tree would (Common.Map). Common.Positions has
--   the moves of a sequence at a position, Common.Outcome what a call ends with (a return, an exception,
--   undefined behaviour, or a recursion that did not end), Common.Bits the laws of exclusive or.
--
-- Modbus: src/modbus/modbus.cc and modbus.h. Modbus.Crc has the tables and Modbus::crc; Modbus.Frame the
--   state of a Modbus object and its two constructors, new_request and new_write; Modbus.Receive has
--   receive_modbus_frame with check_completed, check_crc and the decoding of each function code. The
--   loop over the registers runs on fuel, one more than the byte count of the response; each turn moves
--   its index by two towards the end, so that it takes fewer turns than that. Indices beyond the end of a vector, which the source reads with at(), end a run with
--   the result of the exception. Modbus.Mapped has get_mapped_values, with the texts of numbers as arguments.
--
-- Device: src/util/device.h. The record Device, with the address of the object that a shared pointer
--   points at, its constructors and the copy constructor, operator==, unique_entity, unique_name and
--   get_real_name. The property tree that get_real_name reads is a function.
--
-- Cache: src/util/cache.cc and cache.h. The record Cache has the sequence of the multi-index container,
--   the latest first under the least-recently-used policy, and what was done to the timers of the
--   items. The hashed indices of the container are the record Index, an argument of the operations,
--   with what the container promises of a search; it may be another one at each call, as the buckets
--   change. insert, get, get_by_entity, get_by_name, remove, item_timeout and the setters are functions
--   with the names of the source. Locks are left out: each operation runs under the mutex of the cache.
--
-- FuncUtil: src/util/FuncUtil.cc. FuncUtil.Query has riot_getQueryParams as riot_get_query_params, with
--   its state machine in parse_name and parse_value, and url_decode, and make_query_string over
--   the encoder of pion; FuncUtil.Hex has str_to_hex and
--   hex_str_to_vector, with the calls of Boost in the record TextLibrary; FuncUtil.Names has the checks
--   of the headers Fiware-Service and Fiware-ServicePath, whose exception is a value, and
--   check_forbidden_characters for a text.
--
-- OAuthFilter: src/rest/oauth_filter.cc, src/rest/http_filter.h and AccessControl::receive_event of
--   src/util/access_control.cc. Each handler gives the next step: the status that is posted for the
--   callback of the request, or the question to a service, whose answer is an argument of the next
--   handler (Validation for the token, a status and a content for the authorization). status_of runs a
--   request through the handlers. The match of a regular expression is an argument. OAuthFilter.Callbacks
--   has the callbacks that wait, set_async_filter and call_to_callback.
--
-- Esp: src/esp/source/ESP_StringUtils.cpp. Esp.StringUtils has the functions on texts, Esp.Tokenizer the
--   class CC_StringTokenizer and parseParamsString. A char is signed and a shift of it keeps the sign, as
--   compilers for x86 have it. The loop of replaceString has fuel: one round more than
--   the text has characters is enough.
--
-- CommandHandle: src/rest/command_handle.cc. A command that arrives (update_context, update_command) gets
--   its line (get_command_line, transform_command), is published and saved, and its response handled
--   (process_command_response). What is done outside is a list of effects in the order of the calls: the
--   updates for the context broker, and the changes of the cache and its
--   table. They are taken to return but for the handling of a response, which a std::runtime_error may end
--   after any of its calls; other exceptions are left out. The virtual transform_command and the response of
--   the device are arguments.
--
-- UltraLight.Ul20Service: src/ultra_light/ul20_service.cc, over the two modules above and CommandHandle: the
--   bodies and identifiers of commands, and service, the handler of a device's request
--   (UltraLight.Ul20Service.Request, and Answer with get_all_command of src/rest/command_handle.cc). The searches of
--   the base class are the record Searches. Each of them may throw, and so may each action of a request, which
--   is recorded in the order of the calls, the one that throws included. The alarms and the log are left out.
--
-- Modbus.OperationProcessor: src/modbus/operation_processor.cc, with the maps of the class as a record. Property
--   trees and their JSON are the record Ptree, whose operations give none where Boost throws. read and
--   read_commands (Commands) return the new processor and whether they raise the alarm; read_operations has
--   the text of the file. The questions (Access) return the new processor too, since [] on a map inserts. The
--   references that they return are taken to be read only. Texts are shorter than 2 ^ 31.
--
-- MediaFilter: src/rest/media_filter.cc, over the checks of FuncUtil.Names, whose exception gives the status.
--   The request is a record of what the filter reads of it.
--
-- IoTStatistic: src/rest/iot_statistic.cc, over accumulators that are an argument, with the time of a
--   call as an argument. subscript is operator[], and gives the place of the accumulator that the
--   pointer points at.
--
-- Alarm: src/util/alarm.cc. put_alarm, remove_alarm, reset_alarms and alarm_count are put, remove, reset
--   and size; the two variants of put and message are told apart by a Cause, and the log is a list.
--
-- Command: src/util/command.cc, and the fields, equality and keys of src/util/command.h. The tree of a
--   command is any type, and the time since its timestamp an argument. The cast of what is left of a timeout
--   may throw; other numbers do not overflow.
--
-- CommandCache: src/util/command_cache.cc and command_cache.h, with the moves of a sequence that Cache uses.
--   An Item is a command with the address of its object, since set_status changes a shared object. The
--   hashed indices are the record Index again, with the elements from a position to the end of an index,
--   over which get_by_entityV and get_by_idV (get_by_entity_vector, get_by_id_vector) run. The calls of
--   the timeout function are recorded. Every capacity that is set bounds the cache from then on only, so
--   that the invariant speaks of the largest.
--
-- Ngsi: src/ngsi. Ngsi has JSON values as rapidjson keeps them, and the calls of Boost and rapidjson as
--   the record Library. Ngsi.Attribute has the attribute, with the vectors of attributes in it as a type
--   of their own, its constructors from three texts and from a JSON value, and get_str_value of
--   src/util/json_util.cc. Ngsi.ContextElement has format, add_attribute, exists and set_env_info. What
--   is read of the service's property tree is the record Service. add_attribute calls itself, and runs on
--   fuel: names whose ranks fall along the mappings need one more than the rank of the first. The
--   texts of JSON are read once and the empty entry that the device's map of attributes gets on a
--   miss is left out, since a later read of it gives the same. The constructors from streams and the
--   writing of JSON are not modelled.
--
-- UltraLight: ULInsertObservation::translate and contentForSBCProtocol of
--   src/ultra_light/ULInsertObservation.cc, as translate and content_for_sbc_protocol. The calls of Boost,
--   the clock and the texts of times (RiotISO8601) are the record Calls; the clock stands still during
--   a call. The vector of the caller is the result of a return; what an exception leaves in it is not
--   modelled, nor are the names that are only logged. The fuel is that of add_attribute.
--
-- IotUrl: src/util/iot_url.cc. new_iot_url is the constructor, whose positions in the text are cuts of
--   it; atoi of the C library is an argument.
--
-- Not modelled: the loggers, the store (MongoDB), the HTTP and MQTT connections and the calls of pion and
-- Boost beyond the arguments named above, the third-party copy of TinyXML in src/esp/tinyxml, and the
-- parts of the agent that are not named here.
pub mod Alarm
pub mod Cache
pub mod Command
pub mod CommandCache
pub mod CommandHandle
pub mod Common
pub mod Device
pub mod Esp
pub mod FuncUtil
pub mod IoTStatistic
pub mod IotUrl
pub mod MediaFilter
pub mod Modbus
pub mod Ngsi
pub mod OAuthFilter
pub mod UltraLight
